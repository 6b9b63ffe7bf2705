-- ===== src/Daemon/Watch.antt =====
-- How often daemon_guard.c starts a worker again.
use learn_c.Common.{
  ℕ, suc, ◌+◌, ◌≤◌, ◌≡◌, refl, ◌⊎◌, if◌then◌else◌, Bool, true, false, some, List, [], ◌∷◌, ◌++◌,
  arith, leb, length, replicate, ap, ap₂, ◌∙◌, append-nil,
}
use learn_c.Daemon.Args.{parse_args-built}
use learn_c.Daemon.{
  Junk, new_worker, opt_cmd, parse_args, parsed, Worker, Seen, Event, gives_up, restarts,
  start_worker, same_pid, sooner, counted, restart_or_give_up, check_worker, monitor_pass,
  monitor_workers,
}

-- One worker, turn by turn.
abbrev pub watch : List Seen → Worker → Worker × List Event
watch [] w = (w, [])
watch (s ∷ ss) w =
    let (w', events) = check_worker s w in let (w'', more) = watch ss w' in (w'', events ++ more)

abbrev pub alone : List Seen → List (List Seen)
alone [] = []
alone (s ∷ ss) = (s ∷ []) ∷ alone ss

-- The passes over a single worker.
monitor_workers-watch :
    (ss : List Seen) (w : Worker)
    → monitor_workers (alone ss) (w ∷ []) ≡ ((watch ss w).0 ∷ [], (watch ss w).1)
unfolding monitor_workers monitor_pass
monitor_workers-watch [] w = refl
monitor_workers-watch (s ∷ ss) w =
    let (w', events) = check_worker s w in
    rw (append-nil events)
      (ap (λ (r : List Worker × List Event). (r.0, events ++ r.1)) (monitor_workers-watch ss w'))

-- The worker has ended, at a time of which `quick` says whether it was within the delay since the last
-- start, and can be started again.
pub record Dies (quick : Bool) (s : Seen) (w : Worker) : Type 0 where
  pub ended : same_pid s.res w.pid ≡ true
  pub when : sooner s.now w.last_restart w.restart_delay ≡ quick
  pub pid : ℕ
  pub forks : s.forked ≡ some pid

abbrev pub AllDie : Bool → List Seen → Worker → Type 0
AllDie quick [] w = Unit
AllDie quick (s ∷ ss) w = Dies quick s w × AllDie quick ss (check_worker s w).0

module _ (s : Seen) (w : Worker) (max : ℕ) (limit : w.max_restarts ≡ (false, max)) where
  quick_last : Dies true s w → max ≤ w.restart_count + 1 → (check_worker s w).1 ≡ gives_up ∷ []
  unfolding check_worker restart_or_give_up counted
  quick_last d le =
      let reached : leb max (w.restart_count + 1) ≡ true = ground arith in
      rw (d.ended, d.when, limit, reached) refl

  slow_step :
      Dies false s w
      → 1 ≤ max
      → ((check_worker s w).1 ≡ restarts ∷ []) × ((check_worker s w).0.max_restarts ≡ (false, max))
  unfolding check_worker restart_or_give_up counted start_worker
  slow_step d lt =
      let below : leb max 0 ≡ false = ground arith in
      rw (d.ended, d.when, limit, below, d.forks) (refl, refl)

-- One end within the delay, when the limit is reached.
quick_over :
    (s : Seen) (w : Worker) (max : ℕ)
    → w.max_restarts ≡ (false, max)
    → Dies true s w
    → max ≤ w.restart_count + 1
    → (monitor_workers ((s ∷ []) ∷ []) (w ∷ [])).1 ≡ gives_up ∷ []
quick_over s w max limit dies le =
    ap (λ (r : List Worker × List Event). r.1) (monitor_workers-watch (s ∷ []) w)
    ∙ ap (λ l. l ++ []) (quick_last s w max limit dies le)

-- Each pass finds the worker running, or ended within the delay.
abbrev pub RunsOrDies : List Seen → Worker → Type 0
RunsOrDies [] w = Unit
RunsOrDies (s ∷ ss) w =
    ((same_pid s.res w.pid ≡ false) ⊎ Dies true s w) × RunsOrDies ss (check_worker s w).0

-- The passes that find the worker ended.
abbrev pub ends : List Seen → Worker → ℕ
ends [] w = 0
ends (s ∷ ss) w =
    let rest = ends ss (check_worker s w).0 in if same_pid s.res w.pid then suc rest else rest

slow_run :
    (ss : List Seen) (w : Worker) (max : ℕ)
    → w.max_restarts ≡ (false, max)
    → 1 ≤ max
    → AllDie false ss w
    → (watch ss w).1 ≡ replicate (length ss) restarts
slow_run [] w max limit le h = refl
slow_run (x ∷ ss) w max limit le (d, ds) =
    let (events, limit') = slow_step x w max limit d le in
    ap₂ (λ (a b : List Event). a ++ b) events (slow_run ss (check_worker x w).0 max limit' le ds)

-- A worker that never ends within its delay is started again each time, if it may be at all.
pub slow_deaths :
    (ss : List Seen) (w : Worker) (max : ℕ)
    → w.max_restarts ≡ (false, max)
    → 1 ≤ max
    → AllDie false ss w
    → (monitor_workers (alone ss) (w ∷ [])).1 ≡ replicate (length ss) restarts
slow_deaths ss w max limit le dies =
    ap (λ (r : List Worker × List Event). r.1) (monitor_workers-watch ss w)
    ∙ slow_run ss w max limit le dies

-- `parse_args` leaves `restart_count` as it was in memory: if that is 2 or more, a worker with the limit
-- that `parse_args` sets, which is 3, is given up when it first ends within its delay.
pub junk_gives_up :
    (junk : Junk) (command : List ℕ) (pid started : ℕ) (s : Seen)
    → 2 ≤ junk.count
    → Dies true s (start_worker (some pid) started (new_worker junk command))
    → (c : ℕ) × (parse_args junk (opt_cmd ∷ command ∷ [])
        ≡ parsed (record { capacity = c; workers = new_worker junk command ∷ [] }))
      × ((monitor_workers
            ((s ∷ []) ∷ [])
            (start_worker (some pid) started (new_worker junk command) ∷ [])).1
          ≡ gives_up ∷ [])
unfolding start_worker
junk_gives_up junk command pid started s many dies =
    let (c, done) = parse_args-built junk (record { command = command; opts = [] } ∷ []) in
    (
      c,
      done,
      quick_over s (start_worker (some pid) started (new_worker junk command)) 3 refl dies
          (omega arith),
    )

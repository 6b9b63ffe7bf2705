-- ===== src/Daemon/Tests.antt =====
-- Runs of daemon_guard.c, and its theorems at workers that they have.
use learn_c.Common.{ℕ, ◌+◌, ◌≡◌, refl, true, false, none, some, List, [], ◌∷◌}
use learn_c.Daemon.{
  Worker, Seen, start_worker, sooner, counted, restart_or_give_up, check_worker, cleanup, Junk,
  new_worker, opt_name, opt_max, opt_delay, parse_args, parsed, stray,
}
use learn_c.Daemon.Watch.{Dies, AllDie}
use learn_c.Daemon.Args.{
  sets_name, sets_max, sets_delay, separator, Spec, spec_args, built, parse_args-built,
  early_option,
}

abbrev junk : Junk
junk = record { count = 7; last = 0 }

abbrev command : List ℕ
command = b'w' ∷ []

-- A worker that started at time 100, as process 9.
abbrev worker : Worker
worker = record {
  command = command;
  name = b'n' ∷ [];
  pid = some 9;
  max_restarts = (false, 3);
  restart_delay = (false, 10);
  restart_count = 0;
  last_restart = 100;
}

abbrev ends_at : ℕ → Seen
ends_at t = record { res = some 9; now = t; forked = some 9; later = t + 10 }

abbrev runs : Seen
runs = record { res = none; now = 105; forked = none; later = 105 }

two_slow : AllDie false (ends_at 110 ∷ ends_at 300 ∷ []) worker
unfolding sooner counted restart_or_give_up check_worker start_worker
two_slow = (
  record { ended = refl; when = refl; pid = 9; forks = refl },
  (record { ended = refl; when = refl; pid = 9; forks = refl }, tt),
)

-- Process 9 starts at 100 and ends in the same second.
first_end : Dies true (ends_at 100) (start_worker (some 9) 100 (new_worker junk command))
unfolding start_worker sooner
first_end = record { ended = refl; when = refl; pid = 9; forks = refl }

abbrev specs : List Spec
specs =
    record {
      command = command;
      opts = sets_name (b'a' ∷ []) ∷ sets_max (b'5' ∷ []) ∷ separator ∷ [];
    }
    ∷ record { command = command; opts = sets_delay (b'2' ∷ []) ∷ [] }
    ∷ []

parse_args-built_example :
    (c : ℕ) × (parse_args junk (spec_args specs)
      ≡ parsed (record { capacity = c; workers = built junk specs }))
parse_args-built_example = parse_args-built junk specs

early_options :
    (parse_args junk (opt_name ∷ command ∷ []) ≡ stray)
    × (parse_args junk (opt_max ∷ command ∷ []) ≡ stray)
    × (parse_args junk (opt_delay ∷ command ∷ []) ≡ stray)
early_options = early_option junk command []

cleanup_example : cleanup (worker ∷ new_worker junk command ∷ []) ≡ 9 ∷ []
unfolding cleanup
cleanup_example = refl

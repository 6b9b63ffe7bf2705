-- ===== src/Daemon/Args.antt =====
-- What `parse_args` of daemon_guard.c makes of its arguments.
use learn_c.Common.{
  ℕ, ◌*◌, ◌≤◌, ◌<◌, ◌≡◌, refl, inl, inr, true, some, List, [], ◌∷◌, ◌++◌, arith, leb, ltb, length,
  Bool-cases, ap, ◌∙◌, append_assoc, length-append, append-nil, same_text,
}
use learn_c.CfgFile.{atoi}
use learn_c.Daemon.{
  Worker, kind, opt_cmd, opt_name, opt_max, opt_delay, opt_dashes, Table, parsed, stray, Junk,
  new_worker, grow, add_worker, change_last, on_last, apply, takes_value, parse_loop, parse_args,
}

-- An option behind `--cmd`.
pub data Opt : Type 0 where
  sets_name : List ℕ → Opt
  sets_max : List ℕ → Opt
  sets_delay : List ℕ → Opt
  separator : Opt

pub record Spec : Type 0 where
  pub command : List ℕ
  pub opts : List Opt

abbrev pub opt_args : List Opt → List (List ℕ) → List (List ℕ)
opt_args [] rest = rest
opt_args (sets_name t ∷ os) rest = opt_name ∷ t ∷ opt_args os rest
opt_args (sets_max t ∷ os) rest = opt_max ∷ t ∷ opt_args os rest
opt_args (sets_delay t ∷ os) rest = opt_delay ∷ t ∷ opt_args os rest
opt_args (separator ∷ os) rest = opt_dashes ∷ opt_args os rest

abbrev pub spec_args : List Spec → List (List ℕ)
spec_args [] = []
spec_args (s ∷ ss) = opt_cmd ∷ s.command ∷ opt_args s.opts (spec_args ss)

abbrev pub with_opts : List Opt → Worker → Worker
with_opts [] w = w
with_opts (sets_name t ∷ os) w = with_opts os (record w { name = t })
with_opts (sets_max t ∷ os) w = with_opts os (record w { max_restarts = atoi t })
with_opts (sets_delay t ∷ os) w = with_opts os (record w { restart_delay = atoi t })
with_opts (separator ∷ os) w = with_opts os w

abbrev pub built : Junk → List Spec → List Worker
built junk [] = []
built junk (s ∷ ss) = with_opts s.opts (new_worker junk s.command) ∷ built junk ss

change_last-append :
    (f : Worker → Worker) (ws : List Worker) (w : Worker)
    → change_last f (ws ++ (w ∷ [])) ≡ some (ws ++ (f w ∷ []))
unfolding change_last
change_last-append f [] w = refl
change_last-append f (x ∷ []) w = refl
change_last-append f (x ∷ y ∷ ws) w = rw (change_last-append f (y ∷ ws) w) refl

parse_loop-dashes :
    (junk : Junk) (rest : List (List ℕ)) (t : Table)
    → parse_loop junk (opt_dashes ∷ rest) t ≡ parse_loop junk rest t
unfolding parse_loop kind
parse_loop-dashes junk [] t = refl
parse_loop-dashes junk (v ∷ rest) t = refl

parse_loop-option :
    (junk : Junk) (arg value : List ℕ) (rest : List (List ℕ)) (t t' : Table)
    → takes_value (kind arg) ≡ true
    → apply junk (kind arg) value t ≡ some t'
    → parse_loop junk (arg ∷ value ∷ rest) t ≡ parse_loop junk rest t'
unfolding parse_loop
parse_loop-option junk arg value rest t t' takes done = rw (parse_loop, takes, done) refl

module _ (junk : Junk) (c : ℕ) where
  abbrev table : List Worker → Table
  table ws = record { capacity = c; workers = ws }

  on_last-append :
      (f : Worker → Worker) (ws : List Worker) (w : Worker)
      → on_last f (table (ws ++ (w ∷ []))) ≡ some (table (ws ++ (f w ∷ [])))
  unfolding on_last
  on_last-append f ws w = rw (on_last, change_last-append f ws w) refl

  parse_opts :
      (os : List Opt) (rest : List (List ℕ)) (ws : List Worker) (w : Worker)
      → parse_loop junk (opt_args os rest) (table (ws ++ (w ∷ [])))
        ≡ parse_loop junk rest (table (ws ++ (with_opts os w ∷ [])))
  unfolding kind same_text apply
  parse_opts [] rest ws w = refl
  parse_opts (sets_name t ∷ os) rest ws w =
      parse_loop-option junk opt_name t (opt_args os rest) _ _ refl
        (on_last-append (λ x. record x { name = t }) ws w)
      ∙ parse_opts os rest ws (record w { name = t })
  parse_opts (sets_max t ∷ os) rest ws w =
      parse_loop-option junk opt_max t (opt_args os rest) _ _ refl
        (on_last-append (λ x. record x { max_restarts = atoi t }) ws w)
      ∙ parse_opts os rest ws (record w { max_restarts = atoi t })
  parse_opts (sets_delay t ∷ os) rest ws w =
      parse_loop-option junk opt_delay t (opt_args os rest) _ _ refl
        (on_last-append (λ x. record x { restart_delay = atoi t }) ws w)
      ∙ parse_opts os rest ws (record w { restart_delay = atoi t })
  parse_opts (separator ∷ os) rest ws w =
      parse_loop-dashes junk (opt_args os rest) (table (ws ++ (w ∷ []))) ∙ parse_opts os rest ws w

-- There is room for the new worker.
abbrev pub HasRoom : Table → Type 0
HasRoom t = (1 ≤ t.capacity) × (length t.workers ≤ t.capacity)

add_worker_room :
    (junk : Junk) (command : List ℕ) (t : Table)
    → HasRoom t
    → (c : ℕ) × (length t.workers < c)
      × (add_worker junk command t
          ≡ some (record { capacity = c; workers = t.workers ++ (new_worker junk command ∷ []) }))
unfolding add_worker grow
add_worker_room junk command t (one, room) = elim (Bool-cases (leb t.capacity (length t.workers))) [
  | inl full ↦
      let wide : ltb (length t.workers) (t.capacity * 2) ≡ true = ground arith in
      (t.capacity * 2, ground arith, rw (full, wide) refl)
  | inr some_left ↦
      let wide : ltb (length t.workers) t.capacity ≡ true = ground arith in
      (t.capacity, ground arith, rw (some_left, wide) refl)
]

parse_specs :
    (junk : Junk) (ss : List Spec) (t : Table)
    → HasRoom t
    → (c : ℕ) × (parse_loop junk (spec_args ss) t
        ≡ parsed (record { capacity = c; workers = t.workers ++ built junk ss }))
unfolding parse_loop kind same_text apply
parse_specs junk [] t room = (t.capacity, rw (append-nil t.workers) refl)
parse_specs junk (s ∷ ss) t room =
    let (c, lt, added) = add_worker_room junk s.command t room in
    let w : Worker = with_opts s.opts (new_worker junk s.command) in
    let ws : List Worker = t.workers ++ (w ∷ []) in
    let room' : HasRoom (record { capacity = c; workers = ws }) =
      (omega arith, omega (arith, length-append t.workers (w ∷ []))) in
    let (c', done) = parse_specs junk ss (record { capacity = c; workers = ws }) room' in
    (
      c',
      parse_loop-option junk opt_cmd s.command (opt_args s.opts (spec_args ss)) t _ refl added
          ∙ parse_opts junk c s.opts (spec_args ss) t.workers (new_worker junk s.command)
          ∙ done
          ∙ ap (λ l. parsed (record { capacity = c'; workers = l }))
              (append_assoc t.workers (w ∷ []) (built junk ss)),
    )

-- The arguments that describe workers, each by `--cmd` and any options behind it, give these workers in
-- order, and no access is out of the table's bounds. What the options do not set is as it was in memory.
pub parse_args-built :
    (junk : Junk) (ss : List Spec)
    → (c : ℕ) × (parse_args junk (spec_args ss)
        ≡ parsed (record { capacity = c; workers = built junk ss }))
unfolding parse_args
parse_args-built junk ss =
    parse_specs junk ss (record { capacity = 2; workers = [] }) (omega arith, omega arith)

-- An option that comes before the first `--cmd` is written to the place before the table.
pub early_option :
    (junk : Junk) (value : List ℕ) (rest : List (List ℕ))
    → (parse_args junk (opt_name ∷ value ∷ rest) ≡ stray)
      × (parse_args junk (opt_max ∷ value ∷ rest) ≡ stray)
      × (parse_args junk (opt_delay ∷ value ∷ rest) ≡ stray)
unfolding parse_args parse_loop kind same_text apply on_last change_last
early_option junk value rest = (refl, refl, refl)

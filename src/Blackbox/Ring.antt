-- ===== src/Blackbox/Ring.antt =====
-- The ring of blackbox.c holds the entries from the oldest on, and a new entry goes behind them.
use learn_c.Common.{
  ℕ, zero, suc, ◌+◌, ◌-◌, ◌%◌, ◌≤◌, ◌<◌, ◌≡◌, refl, inl, inr, Bool, some, List, [], ◌∷◌, ◌++◌,
  arith, ◌==◌, if◌then◌else◌, Bool-cases, ==_iff, length, get_or, set, drop, length-set,
  get_or-set_self, get_or-set_ne, length-append, drop-append, ap, ap₂, ◌∙◌, sym,
}
use learn_c.Blackbox.{
  BlackBox, ErrorLog, ErrorCode, Disk, max_log_count, blank, new_entry, blackbox_log,
}

pub record IsValid (b : BlackBox) : Type 0 where
  pub start_in : b.start < max_log_count
  pub count_in : b.count ≤ max_log_count
  pub room : length b.logs ≡ max_log_count

-- The `n` entries from the one with the number `i` on, counted from the slot `s`.
unfoldable pub collect : List ErrorLog → ℕ → ℕ → ℕ → List ErrorLog
collect logs s i zero = []
collect logs s i (suc n) = get_or logs ((s + i) % max_log_count) blank ∷ collect logs s (i + 1) n

-- The log, oldest entry first.
unfoldable pub contents : BlackBox → List ErrorLog
unfolding collect
contents b = collect b.logs b.start 0 b.count

-- The last 100 of a history.
unfoldable pub recent : List ErrorLog → List ErrorLog
recent es = drop (length es - max_log_count) es

module _ (logs : List ErrorLog) (s : ℕ) where
  length-collect : (i n : ℕ) → length (collect logs s i n) ≡ n
  unfolding collect
  length-collect i zero = refl
  length-collect i (suc n) = ap suc (length-collect (i + 1) n)

  collect-snoc :
      (i n : ℕ)
      → collect logs s i (suc n)
        ≡ collect logs s i n ++ (get_or logs ((s + (i + n)) % max_log_count) blank ∷ [])
  unfolding collect
  collect-snoc i zero = ap (λ k. get_or logs ((s + k) % max_log_count) blank ∷ []) (omega arith)
  collect-snoc i (suc n) = ap (◌∷◌ (get_or logs ((s + i) % max_log_count) blank)) (
      collect-snoc (i + 1) n
      ∙ ap (λ k. collect logs s (i + 1) n ++ (get_or logs ((s + k) % max_log_count) blank ∷ []))
          (omega arith))

  -- A slot that none of the entries occupies may be written.
  collect-set :
      (e : ErrorLog) (i n j : ℕ)
      → i + n ≤ j
      → j < i + max_log_count
      → collect (set logs ((s + j) % max_log_count) e) s i n ≡ collect logs s i n
  unfolding collect
  collect-set e i zero j le lt = refl
  collect-set e i (suc n) j le lt =
      ap₂ ◌∷◌ (get_or-set_ne logs e blank (omega arith))
        (collect-set e (i + 1) n j (omega arith) (omega arith))

  -- Moving the start on by one is the same as counting from one further.
  collect-shift : (i n : ℕ) → collect logs ((s + 1) % max_log_count) i n ≡ collect logs s (i + 1) n
  unfolding collect
  collect-shift i zero = refl
  collect-shift i (suc n) =
      ap₂ ◌∷◌ (ap (λ k. get_or logs k blank) (omega arith)) (collect-shift (i + 1) n)

pub length-contents : (b : BlackBox) → length (contents b) ≡ b.count
unfolding contents
length-contents b = length-collect b.logs b.start 0 b.count

-- With the slot behind the last of `n` entries written, the entries are those and the new one.
collect-put :
    (logs : List ErrorLog) (s i n k : ℕ) (e : ErrorLog)
    → length logs ≡ max_log_count
    → n < max_log_count
    → k ≡ (s + (i + n)) % max_log_count
    → collect (set logs k e) s i (suc n) ≡ collect logs s i n ++ (e ∷ [])
collect-put logs s i n k e room lt at = rw at (
    collect-snoc (set logs ((s + (i + n)) % max_log_count) e) s i n
    ∙ ap₂ (λ xs x. xs ++ (x ∷ [])) (collect-set logs s e i n (i + n) (omega arith) (omega arith))
        (get_or-set_self logs ((s + (i + n)) % max_log_count) e blank (omega arith)))

module _ (now : ℕ) (opens : Bool) (code : ErrorCode) (text : List ℕ) (b : BlackBox) (d : Disk) where
  abbrev e : ErrorLog
  e = new_entry now code text

  abbrev written : List ErrorLog
  written = set b.logs ((b.start + b.count) % max_log_count) e

  log-box_not_full :
      b.count < max_log_count
      → (blackbox_log now opens code text (b, d)).0
        ≡ record { start = b.start; count = suc b.count; logs = written }
  unfolding blackbox_log
  log-box_not_full lt = ground arith

  log-box_full :
      b.count ≡ max_log_count
      → (blackbox_log now opens code text (b, d)).0
        ≡ record { start = (b.start + 1) % max_log_count; count = b.count; logs = written }
  unfolding blackbox_log
  log-box_full full = ground arith

  contents-log_not_full :
      IsValid b
      → b.count < max_log_count
      → contents (blackbox_log now opens code text (b, d)).0 ≡ contents b ++ (e ∷ [])
  unfolding contents
  contents-log_not_full v lt =
      rw (log-box_not_full lt) (collect-put b.logs b.start 0 b.count _ e v.room lt (omega arith))

  contents-log_full :
      IsValid b
      → b.count ≡ max_log_count
      → contents (blackbox_log now opens code text (b, d)).0 ≡ drop 1 (contents b) ++ (e ∷ [])
  unfolding contents collect
  contents-log_full v full = rw (log-box_full full) (
      ap (collect written ((b.start + 1) % max_log_count) 0) full
      ∙ collect-shift written b.start 0 100
      ∙ collect-put b.logs b.start 1 99 _ e v.room (omega arith) (omega arith)
      ∙ ap (λ n. drop 1 (collect b.logs b.start 0 n) ++ (e ∷ [])) (sym full))

  contents-log :
      IsValid b
      → contents (blackbox_log now opens code text (b, d)).0 ≡ recent (contents b ++ (e ∷ []))
  unfolding recent
  contents-log v = elim (Bool-cases (b.count == max_log_count)) [
    | inl full ↦
        let len : length (contents b ++ (e ∷ [])) - max_log_count ≡ 1 =
          omega
            (arith, length-append (contents b) (e ∷ []), length-contents b, (==_iff _ _).0 full) in
        rw len (
          contents-log_full v ((==_iff _ _).0 full)
          ∙ drop-append 1 (contents b) (e ∷ [])
              (omega (arith, length-contents b, (==_iff _ _).0 full)))
    | inr other ↦
        let room : b.count < max_log_count = ground arith in
        let len : length (contents b ++ (e ∷ [])) - max_log_count ≡ 0 =
          omega (arith, length-append (contents b) (e ∷ []), length-contents b) in
        rw len (contents-log_not_full v room)
  ]

  log-IsValid : IsValid b → IsValid (blackbox_log now opens code text (b, d)).0
  unfolding blackbox_log
  log-IsValid v = ground (arith, length-set b.logs ((b.start + b.count) % max_log_count) e)

  -- `blackbox_log` on a ring of 100 slots appends the entry, whose text is cut to 255 bytes, and
  -- drops the oldest if there were 100; the ring stays within its bounds, and the file is the new
  -- ring exactly when it could be opened, the old one if not.
  pub blackbox_log-recent :
      IsValid b
      → let (b', d') = blackbox_log now opens code text (b, d) in
        IsValid b'
        × (contents b' ≡ recent (contents b ++ (e ∷ [])))
        × (d' ≡ (if opens then some b' else d))
  unfolding blackbox_log
  blackbox_log-recent v = (log-IsValid v, contents-log v, refl)

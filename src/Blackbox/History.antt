-- ===== src/Blackbox/History.antt =====
-- The log of blackbox.c over a history of calls, its export, and a restart from the file.
use learn_c.Common.{
  ℕ, zero, suc, ◌+◌, ◌-◌, ◌%◌, ◌≤◌, ◌≡◌, refl, inl, inr, Bool, true, false, if◌then◌else◌,
  Bool-cases, none, some, List, [], ◌∷◌, ◌++◌, arith, length, drop, length-append, length-drop,
  drop-drop, drop-append, append_assoc, append-nil, ap, ◌∙◌, sym, get_or,
}
use learn_c.Blackbox.{
  BlackBox, ErrorLog, ErrorCode, Disk, Line, line, max_log_count, blank, new_entry, blackbox_log,
  blackbox_init, blackbox_load_from_file, error_code_to_string, blackbox_export, export_loop,
  blackbox_clear,
}
use learn_c.Blackbox.Ring.{IsValid, contents, collect, recent, length-contents, blackbox_log-recent}

-- What one call of `blackbox_log` is given, with what `time` and `fopen` return in it.
pub record Call : Type 0 where
  pub now : ℕ
  pub opens : Bool
  pub code : ErrorCode
  pub text : List ℕ

abbrev pub entry : Call → ErrorLog
entry c = new_entry c.now c.code c.text

abbrev pub entries : List Call → List ErrorLog
entries [] = []
entries (c ∷ cs) = entry c ∷ entries cs

abbrev pub log_all : List Call → BlackBox × Disk → BlackBox × Disk
log_all [] s = s
log_all (c ∷ cs) s = log_all cs (blackbox_log c.now c.opens c.code c.text s)

-- Forgetting early does not change what is remembered in the end.
recent-recent : (xs ys : List ErrorLog) → recent (recent xs ++ ys) ≡ recent (xs ++ ys)
unfolding recent
recent-recent xs ys =
    let n : ℕ = length xs - max_log_count in
    let len : length (drop n xs ++ ys) ≡ length xs - n + length ys =
      length-append (drop n xs) ys ∙ ap (λ k. k + length ys) (length-drop n xs) in
    let joined : drop n xs ++ ys ≡ drop n (xs ++ ys) = drop-append n xs ys (omega arith) in
    let sum : n + (length xs - n + length ys - max_log_count) ≡ length (xs ++ ys) - max_log_count =
      omega (arith, length-append xs ys) in
    rw (len, joined, drop-drop n (length xs - n + length ys - max_log_count) (xs ++ ys), sum)

recent-small : (xs : List ErrorLog) → length xs ≤ max_log_count → recent xs ≡ xs
unfolding recent
recent-small xs h = let e : length xs - max_log_count ≡ 0 = omega arith in rw e

-- After any calls of `blackbox_log` on a ring of 100 slots, the log holds the last 100 of its entries
-- from before and of the calls' entries, oldest first.
pub log_all-recent :
    (cs : List Call) (b : BlackBox) (d : Disk)
    → IsValid b
    → contents (log_all cs (b, d)).0 ≡ recent (contents b ++ entries cs)
log_all-recent [] b d v =
    rw append-nil (sym (recent-small (contents b) (omega (arith, length-contents b))))
log_all-recent (c ∷ cs) b d v =
    let (v', now, _) = blackbox_log-recent c.now c.opens c.code c.text b d v in
    log_all-recent cs _ _ v'
    ∙ rw now (recent-recent (contents b ++ (entry c ∷ [])) (entries cs))
    ∙ ap recent (append_assoc (contents b) (entry c ∷ []) (entries cs))

-- The lines for entries that are numbered from `n` on.
abbrev pub numbered : ℕ → List ErrorLog → List Line
numbered n [] = []
numbered n (e ∷ es) =
    record {
      number = n;
      time = e.timestamp;
      code = e.error_code;
      meaning = error_code_to_string e.error_code;
      text = e.description;
    }
    ∷ numbered (n + 1) es

export_loop-numbered :
    (b : BlackBox) (i n : ℕ) → export_loop b i n ≡ numbered (i + 1) (collect b.logs b.start i n)
unfolding export_loop collect line
export_loop-numbered b i zero = refl
export_loop-numbered b i (suc n) =
    ap (◌∷◌ (line i (get_or b.logs ((b.start + i) % max_log_count) blank)))
      (export_loop-numbered b (i + 1) n)

-- The export after any calls on a ring of 100 slots has a line for each of the last 100 entries,
-- oldest first, with the numbers 1, 2 and so on, and the entry's time, code, meaning and text.
pub export-log_all :
    (cs : List Call) (b : BlackBox) (d : Disk)
    → IsValid b
    → blackbox_export (log_all cs (b, d)).0 ≡ numbered 1 (recent (contents b ++ entries cs))
unfolding blackbox_export contents
export-log_all cs b d v =
    export_loop-numbered (log_all cs (b, d)).0 0 (log_all cs (b, d)).0.count
    ∙ ap (numbered 1) (log_all-recent cs b d v)

-- The log and the file after one call.
abbrev pub after : Call → BlackBox → Disk → BlackBox × Disk
after c b d = blackbox_log c.now c.opens c.code c.text (b, d)

init-contents :
    (loads : Bool) (saved garbage : BlackBox) {es : List ErrorLog}
    → contents saved ≡ es
    → contents (blackbox_init loads (some saved) garbage) ≡ (if loads then es else [])
unfolding blackbox_init blackbox_load_from_file
init-contents true saved garbage e = e
init-contents false saved garbage e = unfold contents in refl

init-none : (loads : Bool) (garbage : BlackBox) → contents (blackbox_init loads none garbage) ≡ []
unfolding blackbox_init blackbox_load_from_file contents
init-none true garbage = refl
init-none false garbage = refl

-- On a ring of 100 slots: after an entry whose file could be opened, a program that restarts
-- finds the log as it was, whatever its memory holds, if fopen succeeds then, and an empty log
-- if not. If blackbox_clear is called in between, the log is empty at once; after the restart it
-- is empty if remove has succeeded, but a remove that fails leaves the file, and a restart whose
-- fopen succeeds finds the log as it was before blackbox_clear.
pub restart :
    (c : Call) (b garbage : BlackBox) (d : Disk) (loads removed : Bool)
    → IsValid b
    → c.opens ≡ true
    → (contents (blackbox_init loads (after c b d).1 garbage)
        ≡ (if loads then recent (contents b ++ (entry c ∷ [])) else []))
      × (contents (blackbox_clear removed (after c b d)).0 ≡ [])
      × (contents (blackbox_init loads (blackbox_clear removed (after c b d)).1 garbage)
          ≡ (if removed then [] else (if loads then recent (contents b ++ (entry c ∷ [])) else [])))
unfolding blackbox_clear
restart c b garbage d loads removed v opened =
    let (_, now, saved) = blackbox_log-recent c.now c.opens c.code c.text b d v in
    let disk : (after c b d).1 ≡ some (after c b d).0 = saved ∙ rw opened refl in
    (
      rw disk (init-contents loads (after c b d).0 garbage now),
      unfold contents in refl,
      elim (Bool-cases removed) [
        | inl gone ↦ rw gone (init-none loads garbage)
        | inr kept ↦ rw (kept, disk) (init-contents loads (after c b d).0 garbage now)
      ],
    )

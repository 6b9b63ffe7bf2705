-- ===== src/Blackbox/Tests.antt =====
-- Runs of blackbox.c on concrete rings, and its theorems at such rings.
use learn_c.Common.{ℕ, ◌≡◌, refl, true, false, none, [], ◌∷◌, ◌++◌, arith, replicate}
use learn_c.Blackbox.{
  BlackBox, err_over_temperature, err_file_io_failure, blank, blackbox_log, blackbox_init,
  blackbox_export, blackbox_clear,
}
use learn_c.Blackbox.Ring.{contents, recent}
use learn_c.Blackbox.History.{
  Call, entry, entries, log_all, log_all-recent, numbered, export-log_all, after, restart,
}

abbrev empty_box : BlackBox
empty_box = record { start = 0; count = 0; logs = replicate 100 blank }

-- 100 entries, the oldest of them in slot 7.
abbrev full_box : BlackBox
full_box = record { start = 7; count = 100; logs = replicate 100 blank }

abbrev call : ℕ → Call
call n = record {
  now = n;
  opens = true;
  code = err_over_temperature;
  text = b'h' ∷ b'o' ∷ b't' ∷ [];
}

full_wraps : (blackbox_log 9 true err_file_io_failure [] (full_box, none)).0.start ≡ 8
unfolding blackbox_log
full_wraps = refl

two_entries :
    contents (log_all (call 1 ∷ call 2 ∷ []) (empty_box, none)).0
    ≡ entry (call 1) ∷ entry (call 2) ∷ []
unfolding blackbox_log contents
two_entries = refl

log_all-recent_example :
    contents (log_all (call 1 ∷ call 2 ∷ []) (full_box, none)).0
    ≡ recent (contents full_box ++ entries (call 1 ∷ call 2 ∷ []))
log_all-recent_example = log_all-recent (call 1 ∷ call 2 ∷ []) full_box none (omega arith)

export-log_all_example :
    blackbox_export (log_all (call 1 ∷ call 2 ∷ []) (full_box, none)).0
    ≡ numbered 1 (recent (contents full_box ++ entries (call 1 ∷ call 2 ∷ [])))
export-log_all_example = export-log_all (call 1 ∷ call 2 ∷ []) full_box none (omega arith)

-- The file could not be removed.
restart_example :
    (contents (blackbox_init true (after (call 1) full_box none).1 empty_box)
      ≡ recent (contents full_box ++ (entry (call 1) ∷ [])))
    × (contents (blackbox_clear false (after (call 1) full_box none)).0 ≡ [])
    × (contents
          (blackbox_init true (blackbox_clear false (after (call 1) full_box none)).1 empty_box)
        ≡ recent (contents full_box ++ (entry (call 1) ∷ [])))
restart_example = restart (call 1) full_box empty_box none true false (omega arith) refl

-- ===== src/CfgFile/Tests.antt =====
-- Runs of rw_cfg.c, and its theorems at the file that it writes.
use learn_c.Common.{
  same_text, ℕ, ◌≡◌, refl, Bool, true, false, none, some, List, [], ◌∷◌, ◌++◌, arith, inl, inr,
  Bool-cases, ◌==◌, if◌then◌else◌,
}
use learn_c.CfgFile.{
  until_equals, trim_string, write_config_file, read_config_file, search_config, number, boolean,
  string, found, parse_bool, means_yes, to_lowercase, server_port, timeout, debug_mode, by_key,
  atoi, signed, digits, skip_spaces, end_loop,
}
use learn_c.CfgFile.Trim.{Around, trim_string-Around}
use learn_c.CfgFile.Lines.{NoByte, with_newlines}
use learn_c.CfgFile.Parse.{Pair, IsPair}
use learn_c.CfgFile.Rows.{
  Row, comment, setting, AreRows, row_texts, entries, values_of, read_config_file-entries,
  search_config-values,
}
use learn_c.CfgFile.Bools.{parse_bool_cut}

abbrev word : List ℕ
word = b'a' ∷ b' ' ∷ b'b' ∷ []

trim_string-Around_example :
    Around (b' ' ∷ b'a' ∷ b' ' ∷ []) (trim_string (b' ' ∷ b'a' ∷ b' ' ∷ []))
trim_string-Around_example = trim_string-Around (b' ' ∷ b'a' ∷ b' ' ∷ [])

yes_and_more :
    parse_bool (
      b'y' ∷ b'e' ∷ b's' ∷ b' ' ∷ b' ' ∷ b' ' ∷ b' ' ∷ b' ' ∷ b' ' ∷ b' ' ∷ b' ' ∷ b' ' ∷ b' '
      ∷ b' ' ∷ b' ' ∷ b'n' ∷ b'o' ∷ [])
    ≡ true
yes_and_more = parse_bool_cut (b'n' ∷ b'o' ∷ [])

abbrev no_byte : ℕ → List ℕ → Bool
no_byte b [] = true
no_byte b (c ∷ cs) = let rest = no_byte b cs in if c == b then false else rest

no_byte-NoByte : (b : ℕ) (s : List ℕ) → no_byte b s ≡ true → NoByte b s
no_byte-NoByte b [] h = tt
no_byte-NoByte b (c ∷ cs) h = elim (Bool-cases (c == b)) [
  | inl same ↦ absurd (let e : false ≡ true = rw same at h in cc)
  | inr other ↦ (ground arith, no_byte-NoByte b cs (rw other at h))
]

abbrev ip_pair : Pair
ip_pair = (
  b's' ∷ b'e' ∷ b'r' ∷ b'v' ∷ b'e' ∷ b'r' ∷ b'_' ∷ b'i' ∷ b'p' ∷ [],
  b'1' ∷ b'9' ∷ b'2' ∷ b'.' ∷ b'1' ∷ b'6' ∷ b'8' ∷ b'.' ∷ b'1' ∷ b'.' ∷ b'1' ∷ b'0' ∷ b'0' ∷ [],
)

ip_pair-IsPair : IsPair ip_pair
ip_pair-IsPair = record {
  key = record {
    first = b's';
    others = b'e' ∷ b'r' ∷ b'v' ∷ b'e' ∷ b'r' ∷ b'_' ∷ b'i' ∷ b'p' ∷ [];
    bytes = refl;
    no_comment = omega arith;
    trimmed = (refl, refl);
    no_equals = no_byte-NoByte b'=' ip_pair.0 refl;
    one_line = no_byte-NoByte 10 ip_pair.0 refl;
  };
  trimmed = (refl, refl);
  one_line = no_byte-NoByte 10 ip_pair.1 refl;
  short = omega arith;
}

abbrev port_pair : Pair
port_pair = (
  b's' ∷ b'e' ∷ b'r' ∷ b'v' ∷ b'e' ∷ b'r' ∷ b'_' ∷ b'p' ∷ b'o' ∷ b'r' ∷ b't' ∷ [],
  b'8' ∷ b'0' ∷ b'8' ∷ b'0' ∷ [],
)

port_pair-IsPair : IsPair port_pair
port_pair-IsPair = record {
  key = record {
    first = b's';
    others = b'e' ∷ b'r' ∷ b'v' ∷ b'e' ∷ b'r' ∷ b'_' ∷ b'p' ∷ b'o' ∷ b'r' ∷ b't' ∷ [];
    bytes = refl;
    no_comment = omega arith;
    trimmed = (refl, refl);
    no_equals = no_byte-NoByte b'=' port_pair.0 refl;
    one_line = no_byte-NoByte 10 port_pair.0 refl;
  };
  trimmed = (refl, refl);
  one_line = no_byte-NoByte 10 port_pair.1 refl;
  short = omega arith;
}

abbrev time_pair : Pair
time_pair = (b't' ∷ b'i' ∷ b'm' ∷ b'e' ∷ b'o' ∷ b'u' ∷ b't' ∷ [], b'3' ∷ b'0' ∷ [])

time_pair-IsPair : IsPair time_pair
time_pair-IsPair = record {
  key = record {
    first = b't';
    others = b'i' ∷ b'm' ∷ b'e' ∷ b'o' ∷ b'u' ∷ b't' ∷ [];
    bytes = refl;
    no_comment = omega arith;
    trimmed = (refl, refl);
    no_equals = no_byte-NoByte b'=' time_pair.0 refl;
    one_line = no_byte-NoByte 10 time_pair.0 refl;
  };
  trimmed = (refl, refl);
  one_line = no_byte-NoByte 10 time_pair.1 refl;
  short = omega arith;
}

abbrev debug_pair : Pair
debug_pair = (
  b'd' ∷ b'e' ∷ b'b' ∷ b'u' ∷ b'g' ∷ b'_' ∷ b'm' ∷ b'o' ∷ b'd' ∷ b'e' ∷ [],
  b't' ∷ b'r' ∷ b'u' ∷ b'e' ∷ [],
)

debug_pair-IsPair : IsPair debug_pair
debug_pair-IsPair = record {
  key = record {
    first = b'd';
    others = b'e' ∷ b'b' ∷ b'u' ∷ b'g' ∷ b'_' ∷ b'm' ∷ b'o' ∷ b'd' ∷ b'e' ∷ [];
    bytes = refl;
    no_comment = omega arith;
    trimmed = (refl, refl);
    no_equals = no_byte-NoByte b'=' debug_pair.0 refl;
    one_line = no_byte-NoByte 10 debug_pair.0 refl;
  };
  trimmed = (refl, refl);
  one_line = no_byte-NoByte 10 debug_pair.1 refl;
  short = omega arith;
}

abbrev user_pair : Pair
user_pair = (
  b'u' ∷ b's' ∷ b'e' ∷ b'r' ∷ b'n' ∷ b'a' ∷ b'm' ∷ b'e' ∷ [],
  b'a' ∷ b'd' ∷ b'm' ∷ b'i' ∷ b'n' ∷ [],
)

user_pair-IsPair : IsPair user_pair
user_pair-IsPair = record {
  key = record {
    first = b'u';
    others = b's' ∷ b'e' ∷ b'r' ∷ b'n' ∷ b'a' ∷ b'm' ∷ b'e' ∷ [];
    bytes = refl;
    no_comment = omega arith;
    trimmed = (refl, refl);
    no_equals = no_byte-NoByte b'=' user_pair.0 refl;
    one_line = no_byte-NoByte 10 user_pair.0 refl;
  };
  trimmed = (refl, refl);
  one_line = no_byte-NoByte 10 user_pair.1 refl;
  short = omega arith;
}

abbrev welcome_pair : Pair
welcome_pair = (
  b'w' ∷ b'e' ∷ b'l' ∷ b'c' ∷ b'o' ∷ b'm' ∷ b'e' ∷ b'_' ∷ b'm' ∷ b'e' ∷ b's' ∷ b's' ∷ b'a' ∷ b'g'
      ∷ b'e' ∷ [],
  b'H' ∷ b'e' ∷ b'l' ∷ b'l' ∷ b'o' ∷ b',' ∷ b' ' ∷ b'W' ∷ b'o' ∷ b'r' ∷ b'l' ∷ b'd' ∷ b'!' ∷ [],
)

welcome_pair-IsPair : IsPair welcome_pair
welcome_pair-IsPair = record {
  key = record {
    first = b'w';
    others =
        b'e' ∷ b'l' ∷ b'c' ∷ b'o' ∷ b'm' ∷ b'e' ∷ b'_' ∷ b'm' ∷ b'e' ∷ b's' ∷ b's' ∷ b'a' ∷ b'g'
        ∷ b'e' ∷ [];
    bytes = refl;
    no_comment = omega arith;
    trimmed = (refl, refl);
    no_equals = no_byte-NoByte b'=' welcome_pair.0 refl;
    one_line = no_byte-NoByte 10 welcome_pair.0 refl;
  };
  trimmed = (refl, refl);
  one_line = no_byte-NoByte 10 welcome_pair.1 refl;
  short = omega arith;
}

abbrev note : List ℕ
note =
    b' ' ∷ b'S' ∷ b'a' ∷ b'm' ∷ b'p' ∷ b'l' ∷ b'e' ∷ b' ' ∷ b'c' ∷ b'o' ∷ b'n' ∷ b'f' ∷ b'i' ∷ b'g'
    ∷ b'u' ∷ b'r' ∷ b'a' ∷ b't' ∷ b'i' ∷ b'o' ∷ b'n' ∷ b' ' ∷ b'f' ∷ b'i' ∷ b'l' ∷ b'e' ∷ []

-- The rows of the file that `write_config_file` makes.
abbrev written : List Row
written =
    comment note
    ∷ setting ip_pair
    ∷ setting port_pair
    ∷ setting time_pair
    ∷ setting debug_pair
    ∷ setting user_pair
    ∷ setting welcome_pair
    ∷ []

written-AreRows : AreRows written
written-AreRows = (
  (no_byte-NoByte 10 note refl, omega arith),
  (
    ip_pair-IsPair,
    (
      port_pair-IsPair,
      (time_pair-IsPair, (debug_pair-IsPair, (user_pair-IsPair, (welcome_pair-IsPair, tt)))),
    ),
  ),
)

written_file :
    (write_config_file true none ≡ some (with_newlines (row_texts written)))
    × (write_config_file false none ≡ none)
unfolding write_config_file
written_file = (refl, refl)

-- What is shown of the file.
written-entries :
    entries written
    ≡ string ip_pair.0 ip_pair.1
      ∷ number server_port (false, 8080)
      ∷ number timeout (false, 30)
      ∷ boolean debug_mode debug_pair.1 true
      ∷ string user_pair.0 user_pair.1
      ∷ string welcome_pair.0 welcome_pair.1
      ∷ []
unfolding by_key same_text atoi signed digits skip_spaces parse_bool to_lowercase trim_string
    end_loop means_yes
written-entries = refl

read_config_file-entries_example :
    read_config_file (some (with_newlines (row_texts written))) ≡ some (entries written)
read_config_file-entries_example = read_config_file-entries written written-AreRows

search_config-values_example :
    search_config (timeout ++ (10 ∷ [])) (some (with_newlines (row_texts written)))
    ≡ found timeout (values_of timeout written)
search_config-values_example =
    search_config-values timeout written time_pair-IsPair.key (omega arith) written-AreRows

-- The setting `k = a=b`.
abbrev cut_pair : Pair
cut_pair = (b'k' ∷ [], b'a' ∷ b'=' ∷ b'b' ∷ [])

cut_pair-IsPair : IsPair cut_pair
cut_pair-IsPair = record {
  key = record {
    first = b'k';
    others = [];
    bytes = refl;
    no_comment = omega arith;
    trimmed = (refl, refl);
    no_equals = no_byte-NoByte b'=' cut_pair.0 refl;
    one_line = no_byte-NoByte 10 cut_pair.0 refl;
  };
  trimmed = (refl, refl);
  one_line = no_byte-NoByte 10 cut_pair.1 refl;
  short = omega arith;
}

-- A value with an `=` in it is shown whole, and found up to the `=`.
value_cut :
    (read_config_file (some (with_newlines (row_texts (setting cut_pair ∷ []))))
      ≡ some (by_key cut_pair.0 cut_pair.1 ∷ []))
    × (search_config
          (cut_pair.0 ++ (10 ∷ []))
          (some (with_newlines (row_texts (setting cut_pair ∷ []))))
        ≡ found cut_pair.0 ((b'a' ∷ []) ∷ []))
unfolding same_text until_equals trim_string end_loop
value_cut = (
  read_config_file-entries (setting cut_pair ∷ []) (cut_pair-IsPair, tt),
  search_config-values cut_pair.0 (setting cut_pair ∷ []) cut_pair-IsPair.key (omega arith)
      (cut_pair-IsPair, tt),
)

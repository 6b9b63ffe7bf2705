-- ===== src/CfgFile.antt =====
-- 1.Demo/1.syntax_interface/7.file_dir_opt/rw_cfg.c: a file of lines `key = value` is written, read
-- and searched. A text is the list of its bytes up to the final zero byte; a file is the list of its
-- bytes, of which none is zero, or `none` if `fopen` fails. Letters and spaces are those of the "C"
-- locale. What is printed is a list of values.
pub mod Trim
pub mod Lines
pub mod Parse
pub mod Rows
pub mod Bools
mod Tests
use learn_c.Common.{
  ℕ, zero, suc, ◌+◌, ◌-◌, ◌*◌, Bool, true, false, ◌&&◌, ◌||◌, Option, none, some, List, [], ◌∷◌,
  ◌++◌, ◌==◌, ltb, leb, if◌then◌else◌, length, get_or, take, same_text, map,
}

abbrev comment_line : List ℕ
comment_line =
    b'#' ∷ b' ' ∷ b'S' ∷ b'a' ∷ b'm' ∷ b'p' ∷ b'l' ∷ b'e' ∷ b' ' ∷ b'c' ∷ b'o' ∷ b'n' ∷ b'f' ∷ b'i'
    ∷ b'g' ∷ b'u' ∷ b'r' ∷ b'a' ∷ b't' ∷ b'i' ∷ b'o' ∷ b'n' ∷ b' ' ∷ b'f' ∷ b'i' ∷ b'l' ∷ b'e' ∷ 10
    ∷ []

abbrev ip_line : List ℕ
ip_line =
    b's' ∷ b'e' ∷ b'r' ∷ b'v' ∷ b'e' ∷ b'r' ∷ b'_' ∷ b'i' ∷ b'p' ∷ b' ' ∷ b'=' ∷ b' ' ∷ b'1' ∷ b'9'
    ∷ b'2' ∷ b'.' ∷ b'1' ∷ b'6' ∷ b'8' ∷ b'.' ∷ b'1' ∷ b'.' ∷ b'1' ∷ b'0' ∷ b'0' ∷ 10 ∷ []

abbrev port_line : List ℕ
port_line =
    b's' ∷ b'e' ∷ b'r' ∷ b'v' ∷ b'e' ∷ b'r' ∷ b'_' ∷ b'p' ∷ b'o' ∷ b'r' ∷ b't' ∷ b' ' ∷ b'=' ∷ b' '
    ∷ b'8' ∷ b'0' ∷ b'8' ∷ b'0' ∷ 10 ∷ []

abbrev timeout_line : List ℕ
timeout_line =
    b't' ∷ b'i' ∷ b'm' ∷ b'e' ∷ b'o' ∷ b'u' ∷ b't' ∷ b' ' ∷ b'=' ∷ b' ' ∷ b'3' ∷ b'0' ∷ 10 ∷ []

abbrev debug_line : List ℕ
debug_line =
    b'd' ∷ b'e' ∷ b'b' ∷ b'u' ∷ b'g' ∷ b'_' ∷ b'm' ∷ b'o' ∷ b'd' ∷ b'e' ∷ b' ' ∷ b'=' ∷ b' ' ∷ b't'
    ∷ b'r' ∷ b'u' ∷ b'e' ∷ 10 ∷ []

abbrev user_line : List ℕ
user_line =
    b'u' ∷ b's' ∷ b'e' ∷ b'r' ∷ b'n' ∷ b'a' ∷ b'm' ∷ b'e' ∷ b' ' ∷ b'=' ∷ b' ' ∷ b'a' ∷ b'd' ∷ b'm'
    ∷ b'i' ∷ b'n' ∷ 10 ∷ []

abbrev welcome_line : List ℕ
welcome_line =
    b'w' ∷ b'e' ∷ b'l' ∷ b'c' ∷ b'o' ∷ b'm' ∷ b'e' ∷ b'_' ∷ b'm' ∷ b'e' ∷ b's' ∷ b's' ∷ b'a' ∷ b'g'
    ∷ b'e' ∷ b' ' ∷ b'=' ∷ b' ' ∷ b'H' ∷ b'e' ∷ b'l' ∷ b'l' ∷ b'o' ∷ b',' ∷ b' ' ∷ b'W' ∷ b'o'
    ∷ b'r' ∷ b'l' ∷ b'd' ∷ b'!' ∷ 10 ∷ []

pub write_config_file : (opens : Bool) → Option (List ℕ) → Option (List ℕ)
write_config_file opens before =
    if opens
    then some (
        comment_line
        ++ (ip_line
            ++ (port_line ++ (timeout_line ++ (debug_line ++ (user_line ++ welcome_line))))))
    else before

-- `isspace`.
abbrev pub is_space : ℕ → Bool
is_space c = (c == b' ') || (leb 9 c && leb c 13)

-- `start`, which is moved behind the spaces.
pub skip_spaces : List ℕ → List ℕ
skip_spaces [] = []
skip_spaces (c ∷ cs) = let rest = skip_spaces cs in if is_space c then rest else c ∷ cs

-- The loop on `end`, on the number of bytes from `start` to `end`.
pub end_loop : ℕ → List ℕ → ℕ
end_loop zero start = 0
end_loop (suc n) start =
    let rest = end_loop n start in if ltb 0 n && is_space (get_or start n 0) then rest else suc n

pub trim_string : List ℕ → List ℕ
unfolding skip_spaces end_loop
trim_string str = let start = skip_spaces str in take (end_loop (length start) start) start

abbrev pub tolower : ℕ → ℕ
tolower c = if leb b'A' c && leb c b'Z' then c + 32 else c

pub to_lowercase : List ℕ → List ℕ
to_lowercase [] = []
to_lowercase (c ∷ cs) = tolower c ∷ to_lowercase cs

-- The three texts that mean yes.
pub means_yes : List ℕ → Bool
unfolding same_text
means_yes t =
    same_text t (b't' ∷ b'r' ∷ b'u' ∷ b'e' ∷ [])
    || (same_text t (b'1' ∷ []) || same_text t (b'y' ∷ b'e' ∷ b's' ∷ []))

pub parse_bool : List ℕ → Bool
unfolding to_lowercase trim_string means_yes
parse_bool value = means_yes (trim_string (to_lowercase (take 15 value)))

-- `fgets` with room for `n` bytes and the final zero: the line, and the rest of the file.
pub fgets : ℕ → List ℕ → List ℕ × List ℕ
fgets zero file = ([], file)
fgets (suc n) [] = ([], [])
fgets (suc n) (c ∷ cs) = let r = fgets n cs in if c == 10 then (c ∷ [], cs) else (c ∷ r.0, r.1)

-- The lines that the calls of `fgets` return, until there is no more; one byte a call is read at least.
pub lines : ℕ → List ℕ → List (List ℕ)
unfolding fgets
lines zero file = []
lines (suc n) [] = []
lines (suc n) (c ∷ cs) = let r = fgets 255 (c ∷ cs) in r.0 ∷ lines n r.1

-- The text up to the first newline.
pub before_newline : List ℕ → List ℕ
before_newline [] = []
before_newline (c ∷ cs) = let rest = before_newline cs in if c == 10 then [] else c ∷ rest

-- The texts before and behind the first `=`, by `strchr`.
pub split_equals : List ℕ → Option (List ℕ × List ℕ)
split_equals [] = none
split_equals (c ∷ cs) =
    let rest = split_equals cs in
    if c == b'=' then some ([], cs) else elim rest [ none ↦ none | some (k, v) ↦ some (c ∷ k, v) ]

-- `atoi`: whether there is a minus, and the number. The code's result is undefined for what is not an
-- `int`.
pub digits : ℕ → List ℕ → ℕ
digits acc [] = acc
digits acc (c ∷ cs) =
    let rest = digits (acc * 10 + (c - b'0')) cs in if leb b'0' c && leb c b'9' then rest else acc

pub signed : List ℕ → Bool × ℕ
unfolding digits
signed [] = (false, 0)
signed (c ∷ cs) =
    if c == b'-'
    then (true, digits 0 cs)
    else (if c == b'+' then (false, digits 0 cs) else (false, digits 0 (c ∷ cs)))

pub atoi : List ℕ → Bool × ℕ
unfolding signed skip_spaces
atoi text = signed (skip_spaces text)

-- What is printed of a line.
pub data Entry : Type 0 where
  number : (key : List ℕ) → Bool × ℕ → Entry
  boolean : (key value : List ℕ) → Bool → Entry
  string : (key value : List ℕ) → Entry
  missing_equals : ℕ → Entry
  empty_key : ℕ → Entry

abbrev pub server_port : List ℕ
server_port = b's' ∷ b'e' ∷ b'r' ∷ b'v' ∷ b'e' ∷ b'r' ∷ b'_' ∷ b'p' ∷ b'o' ∷ b'r' ∷ b't' ∷ []

abbrev pub timeout : List ℕ
timeout = b't' ∷ b'i' ∷ b'm' ∷ b'e' ∷ b'o' ∷ b'u' ∷ b't' ∷ []

abbrev pub debug_mode : List ℕ
debug_mode = b'd' ∷ b'e' ∷ b'b' ∷ b'u' ∷ b'g' ∷ b'_' ∷ b'm' ∷ b'o' ∷ b'd' ∷ b'e' ∷ []

pub by_key : List ℕ → List ℕ → Entry
unfolding same_text atoi parse_bool
by_key key value =
    if same_text key server_port || same_text key timeout
    then number key (atoi value)
    else (if same_text key debug_mode
        then boolean key value (parse_bool value)
        else string key value)

-- A key with its value, both trimmed; an empty key is only warned of.
pub show_pair : ℕ → List ℕ → List ℕ → Entry
unfolding by_key
show_pair line_num [] value = empty_key line_num
show_pair line_num (c ∷ cs) value = by_key (c ∷ cs) value

-- The first byte says that a line is a comment or empty; `fgets` returns no line without bytes.
abbrev pub skipped : List ℕ → Bool
skipped line = let c = get_or line 0 0 in (c == b'#') || (c == 10)

pub show_split : ℕ → Option (List ℕ × List ℕ) → Entry
unfolding show_pair trim_string
show_split line_num none = missing_equals line_num
show_split line_num (some (key, value)) = show_pair line_num (trim_string key) (trim_string value)

-- `line_num` is the number of the line before.
pub read_loop : ℕ → List (List ℕ) → List Entry
unfolding show_split split_equals before_newline
read_loop line_num [] = []
read_loop line_num (line ∷ rest) =
    let others = read_loop (line_num + 1) rest in
    if skipped line
    then others
    else show_split (line_num + 1) (split_equals (before_newline line)) ∷ others

pub read_config_file : Option (List ℕ) → Option (List Entry)
unfolding read_loop lines
read_config_file none = none
read_config_file (some file) = some (read_loop 0 (lines (length file) file))

pub skip_equals : List ℕ → List ℕ
skip_equals [] = []
skip_equals (c ∷ cs) = let rest = skip_equals cs in if c == b'=' then rest else c ∷ cs

-- The text up to the next `=`, and what is behind it.
pub until_equals : List ℕ → List ℕ × List ℕ
until_equals [] = ([], [])
until_equals (c ∷ cs) = let r = until_equals cs in if c == b'=' then ([], cs) else (c ∷ r.0, r.1)

-- `strtok_r` with the delimiter `=`: the token, if there is one, and where the next call goes on.
pub token_from : List ℕ → Option (List ℕ × List ℕ)
unfolding until_equals
token_from [] = none
token_from (c ∷ cs) = some (until_equals (c ∷ cs))

pub strtok_r : List ℕ → Option (List ℕ × List ℕ)
unfolding skip_equals token_from
strtok_r text = token_from (skip_equals text)

-- The value of a line whose key is the one that is searched.
pub find_value : List ℕ → Option (List ℕ × List ℕ) → Option (List ℕ)
unfolding same_text trim_string strtok_r
find_value search_key none = none
find_value search_key (some (key, saved)) =
    if same_text (trim_string key) search_key
    then elim (strtok_r saved) [ none ↦ none | some (value, later) ↦ some (trim_string value) ]
    else none

-- The values that are printed as found, one for each line that has the key.
pub search_loop : List ℕ → List (List ℕ) → List (List ℕ)
unfolding find_value strtok_r
search_loop search_key [] = []
search_loop search_key (line ∷ rest) =
    let others = search_loop search_key rest in
    if skipped line
    then others
    else elim (find_value search_key (strtok_r line)) [ none ↦ others | some v ↦ v ∷ others ]

pub data Search : Type 0 where
  no_key : Search
  no_file : Search
  found : (key : List ℕ) → List (List ℕ) → Search

pub search_for : List ℕ → Option (List ℕ) → Search
unfolding search_loop lines
search_for [] file = no_key
search_for (c ∷ cs) none = no_file
search_for (c ∷ cs) (some file) = found (c ∷ cs) (search_loop (c ∷ cs) (lines (length file) file))

-- `typed` is what `fgets` finds on the standard input; there is something.
pub search_config : (typed : List ℕ) → Option (List ℕ) → Search
unfolding search_for trim_string fgets
search_config typed file = search_for (trim_string (fgets 99 typed).0) file

-- ===== src/Daemon.antt =====
-- 1.Demo/3.tools/1.daemon/daemon/daemon_guard.c: a process that starts workers and starts them again
-- when they end. What `fork`, `waitpid` and `time` return are arguments. A process number is positive,
-- and `none` is -1; `waitpid` also returns 0, for a process that runs. `daemonize`, the branch of the
-- child in `start_worker`, and the sleeps are calls of the operating system only and are left out.
pub mod Watch
pub mod Args
mod Tests
use learn_c.Common.{
  ℕ, zero, suc, ◌+◌, ◌*◌, Bool, true, false, not, ◌&&◌, ◌||◌, Option, none, some, List, [], ◌∷◌,
  ◌++◌, ◌==◌, ltb, leb, if◌then◌else◌, length, same_text,
}
use learn_c.CfgFile.{atoi}

-- An `int`: whether it is negative, and its size.
abbrev pub CInt : Type 0
CInt = Bool × ℕ

-- `restart_count` is taken to be 0 or more.
pub record Worker : Type 0 where
  pub command : List ℕ
  pub name : List ℕ
  pub pid : Option ℕ
  pub max_restarts : CInt
  pub restart_delay : CInt
  pub restart_count : ℕ
  pub last_restart : ℕ

-- `forked` is what `fork` returns to the parent.
pub start_worker : (forked : Option ℕ) (now : ℕ) → Worker → Worker
start_worker none now w = w
start_worker (some pid) now w = record w { pid = some pid; last_restart = now }

-- What the calls of one turn for one worker return: `waitpid`, the time, and for a restart `fork` and
-- the time after it.
pub record Seen : Type 0 where
  pub res : Option ℕ
  pub now : ℕ
  pub forked : Option ℕ
  pub later : ℕ

abbrev pub same_pid : Option ℕ → Option ℕ → Bool
same_pid none none = true
same_pid none (some q) = false
same_pid (some p) none = false
same_pid (some p) (some q) = p == q

-- `now - last < delay`.
pub sooner : ℕ → ℕ → CInt → Bool
sooner now last (false, delay) = ltb now (last + delay)
sooner now last (true, delay) = ltb (now + delay) last

-- `count >= max`.
abbrev pub at_least : ℕ → CInt → Bool
at_least count (false, max) = leb max count
at_least count (true, max) = true

pub data Event : Type 0 where
  gives_up : Event
  restarts : Event

pub counted : ℕ → Worker → Worker
unfolding sooner
counted now w = record w {
  restart_count = if sooner now w.last_restart w.restart_delay then w.restart_count + 1 else 0;
}

pub restart_or_give_up : Seen → Worker → Worker × List Event
unfolding start_worker
restart_or_give_up seen w =
    if at_least w.restart_count w.max_restarts
    then (w, gives_up ∷ [])
    else (start_worker seen.forked seen.later w, restarts ∷ [])

-- One turn for one worker.
pub check_worker : Seen → Worker → Worker × List Event
unfolding counted restart_or_give_up
check_worker seen w =
    if same_pid seen.res w.pid then restart_or_give_up seen (counted seen.now w) else (w, [])

-- One pass over the workers; there is an observation for each.
pub monitor_pass : List Seen → List Worker → List Worker × List Event
unfolding check_worker
monitor_pass [] ws = (ws, [])
monitor_pass (s ∷ ss) [] = ([], [])
monitor_pass (s ∷ ss) (w ∷ ws) =
    let (w', events) = check_worker s w in
    let (ws', more) = monitor_pass ss ws in (w' ∷ ws', events ++ more)

-- The passes of `monitor_workers`, as far as they have come.
pub monitor_workers : List (List Seen) → List Worker → List Worker × List Event
unfolding monitor_pass
monitor_workers [] ws = (ws, [])
monitor_workers (pass ∷ passes) ws =
    let (ws', events) = monitor_pass pass ws in
    let (ws'', more) = monitor_workers passes ws' in (ws'', events ++ more)

-- The processes that `cleanup` sends SIGTERM to.
pub cleanup : List Worker → List ℕ
cleanup [] = []
cleanup (w ∷ ws) = let rest = cleanup ws in elim w.pid [ none ↦ rest | some pid ↦ pid ∷ rest ]

-- What an argument is.
pub data Kind : Type 0 where
  cmd name max delay dashes other : Kind

abbrev pub opt_cmd : List ℕ
opt_cmd = b'-' ∷ b'-' ∷ b'c' ∷ b'm' ∷ b'd' ∷ []

abbrev pub opt_name : List ℕ
opt_name = b'-' ∷ b'-' ∷ b'n' ∷ b'a' ∷ b'm' ∷ b'e' ∷ []

abbrev pub opt_max : List ℕ
opt_max =
    b'-' ∷ b'-' ∷ b'm' ∷ b'a' ∷ b'x' ∷ b'-' ∷ b'r' ∷ b'e' ∷ b's' ∷ b't' ∷ b'a' ∷ b'r' ∷ b't' ∷ b's'
    ∷ []

abbrev pub opt_delay : List ℕ
opt_delay =
    b'-' ∷ b'-' ∷ b'r' ∷ b'e' ∷ b's' ∷ b't' ∷ b'a' ∷ b'r' ∷ b't' ∷ b'-' ∷ b'd' ∷ b'e' ∷ b'l' ∷ b'a'
    ∷ b'y' ∷ []

abbrev pub opt_dashes : List ℕ
opt_dashes = b'-' ∷ b'-' ∷ []

pub kind : List ℕ → Kind
unfolding same_text
kind arg =
    if same_text arg opt_cmd
    then cmd
    else (if same_text arg opt_name
        then name
        else (if same_text arg opt_max
            then max
            else (if same_text arg opt_delay
                then delay
                else (if same_text arg opt_dashes then dashes else other))))

-- `workers` and what `malloc` and `realloc` gave room for.
pub record Table : Type 0 where
  pub capacity : ℕ
  pub workers : List Worker

pub data Parsed : Type 0 where
  parsed : Table → Parsed
  -- `exit`, for an argument that is not known
  exits : (arg : List ℕ) → Parsed
  -- an access outside of `workers`
  stray : Parsed

-- The text "unnamed".
abbrev pub unnamed : List ℕ
unnamed = b'u' ∷ b'n' ∷ b'n' ∷ b'a' ∷ b'm' ∷ b'e' ∷ b'd' ∷ []

-- The two fields that `parse_args` does not set hold what was in memory.
pub record Junk : Type 0 where
  pub count : ℕ
  pub last : ℕ

abbrev pub new_worker : Junk → List ℕ → Worker
new_worker junk command = record {
  command = command;
  name = unnamed;
  pid = none;
  max_restarts = (false, 3);
  restart_delay = (false, 1);
  restart_count = junk.count;
  last_restart = junk.last;
}

-- Room for one worker more.
pub grow : Table → Table
grow t = if leb t.capacity (length t.workers) then record t { capacity = t.capacity * 2 } else t

pub add_worker : Junk → List ℕ → Table → Option Table
unfolding grow
add_worker junk command t =
    let t' = grow t in
    if ltb (length t'.workers) t'.capacity
    then some (record t' { workers = t'.workers ++ (new_worker junk command ∷ []) })
    else none

-- A change of `workers[worker_count - 1]`.
pub change_last : (Worker → Worker) → List Worker → Option (List Worker)
change_last f [] = none
change_last f (w ∷ []) = some (f w ∷ [])
change_last f (w ∷ x ∷ ws) = elim (change_last f (x ∷ ws)) [ none ↦ none | some xs ↦ some (w ∷ xs) ]

pub on_last : (Worker → Worker) → Table → Option Table
unfolding change_last
on_last f t = elim (change_last f t.workers) [
  | none ↦ none
  | some ws ↦ some (record t { workers = ws })
]

-- What an option with its value does; `none` for an access outside of `workers`.
pub apply : Junk → Kind → List ℕ → Table → Option Table
unfolding add_worker on_last
apply junk cmd value t = add_worker junk value t
apply junk name value t = on_last (λ w. record w { name = value }) t
apply junk max value t = on_last (λ w. record w { max_restarts = atoi value }) t
apply junk delay value t = on_last (λ w. record w { restart_delay = atoi value }) t
apply junk dashes value t = none
apply junk other value t = none

-- The options that take a value.
abbrev pub takes_value : Kind → Bool
takes_value dashes = false
takes_value other = false
takes_value k = true

abbrev pub is_dashes : Kind → Bool
is_dashes dashes = true
is_dashes k = false

pub parse_loop : Junk → List (List ℕ) → Table → Parsed
unfolding kind apply
parse_loop junk [] t = parsed t
parse_loop junk (arg ∷ []) t = if is_dashes (kind arg) then parsed t else exits arg
parse_loop junk (arg ∷ value ∷ rest) t = elim (takes_value (kind arg)) [
  | true ↦ elim (apply junk (kind arg) value t) [ none ↦ stray | some t' ↦ parse_loop junk rest t' ]
  | false ↦ elim (is_dashes (kind arg)) [
    | true ↦ parse_loop junk (value ∷ rest) t
    | false ↦ exits arg
  ]
]

-- `args` is `argv` without the program's name.
pub parse_args : Junk → List (List ℕ) → Parsed
unfolding parse_loop
parse_args junk args = parse_loop junk args (record { capacity = 2; workers = [] })

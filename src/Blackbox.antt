-- ===== src/Blackbox.antt =====
-- 1.Demo/3.tools/8.blackbox/blackbox.c and blackbox.h: a log of the last 100 errors in a ring, saved
-- whole to a file after each entry. Time, and whether `fopen` and `remove` succeed, are arguments of
-- the calls. The file is not there, or it is the image of a `BlackBox`: `fwrite` and `fread` of a file
-- that was opened are taken to transfer the whole of it.
pub mod Ring
pub mod History
mod Tests
use Prim.Native.String.{String}
use learn_c.Common.{
  ℕ, zero, suc, ◌+◌, ◌%◌, Bool, true, false, Option, none, some, List, [], ◌∷◌, ◌==◌, if◌then◌else◌,
  get_or, set, take,
}

abbrev pub max_log_count : ℕ
max_log_count = 100

-- `ErrorCode`; a value that the enumeration does not list is kept as it is.
pub data ErrorCode : Type 0 where
  err_none err_memory_allocation err_sensor_disconnected err_unexpected_reboot : ErrorCode
  err_file_io_failure err_over_temperature : ErrorCode
  unlisted : ℕ → ErrorCode

-- `description` is the text up to its final zero byte.
pub record ErrorLog : Type 0 where
  pub timestamp : ℕ
  pub error_code : ErrorCode
  pub description : List ℕ

pub record BlackBox : Type 0 where
  pub start : ℕ
  pub count : ℕ
  pub logs : List ErrorLog

-- What the log file holds.
abbrev pub Disk : Type 0
Disk = Option BlackBox

-- `opens` is whether `fopen` returns a file, if there is one.
pub blackbox_load_from_file : (opens : Bool) → Disk → BlackBox → BlackBox
blackbox_load_from_file opens none box = box
blackbox_load_from_file opens (some saved) box = if opens then saved else box

pub blackbox_init : (opens : Bool) → Disk → BlackBox → BlackBox
unfolding blackbox_load_from_file
blackbox_init opens disk box =
    blackbox_load_from_file opens disk (record box { start = 0; count = 0 })

-- `opens` is whether `fopen` returns a file.
pub blackbox_save_to_file : (opens : Bool) → BlackBox → Disk → Disk
blackbox_save_to_file opens box disk = if opens then some box else disk

-- `strncpy` of at most 255 bytes and the zero byte behind them.
pub new_entry : ℕ → ErrorCode → List ℕ → ErrorLog
new_entry now code text = record { timestamp = now; error_code = code; description = take 255 text }

pub blackbox_log : (now : ℕ) (opens : Bool) → ErrorCode → List ℕ → BlackBox × Disk → BlackBox × Disk
unfolding new_entry blackbox_save_to_file
blackbox_log now opens code text (box, disk) =
    let index = (box.start + box.count) % max_log_count in
    let full = box.count == max_log_count in
    let box' : BlackBox = record {
      start = if full then (box.start + 1) % max_log_count else box.start;
      count = if full then box.count else box.count + 1;
      logs = set box.logs index (new_entry now code text);
    } in
    (box', blackbox_save_to_file opens box' disk)

pub error_code_to_string : ErrorCode → String
error_code_to_string err_none = "No Error"
error_code_to_string err_memory_allocation = "Memory Allocation Failed"
error_code_to_string err_sensor_disconnected = "Sensor Disconnected"
error_code_to_string err_unexpected_reboot = "Unexpected Reboot"
error_code_to_string err_file_io_failure = "File I/O Failure"
error_code_to_string err_over_temperature = "Over Temperature"
error_code_to_string (unlisted n) = "Unknown Error"

-- A line of the export; the time is not formatted.
pub record Line : Type 0 where
  pub number : ℕ
  pub time : ℕ
  pub code : ErrorCode
  pub meaning : String
  pub text : List ℕ

-- Stands for what a read out of range would find.
abbrev pub blank : ErrorLog
blank = record { timestamp = 0; error_code = err_none; description = [] }

pub line : ℕ → ErrorLog → Line
line i e = record {
  number = i + 1;
  time = e.timestamp;
  code = e.error_code;
  meaning = error_code_to_string e.error_code;
  text = e.description;
}

-- `n` rounds are left, and the next has the number `i`.
pub export_loop : BlackBox → ℕ → ℕ → List Line
unfolding line
export_loop box i zero = []
export_loop box i (suc n) =
    line i (get_or box.logs ((box.start + i) % max_log_count) blank) ∷ export_loop box (i + 1) n

pub blackbox_export : BlackBox → List Line
unfolding export_loop
blackbox_export box = export_loop box 0 box.count

-- `removed` is whether `remove` succeeds.
pub blackbox_clear : (removed : Bool) → BlackBox × Disk → BlackBox × Disk
blackbox_clear removed (box, disk) =
    (record box { start = 0; count = 0 }, if removed then none else disk)

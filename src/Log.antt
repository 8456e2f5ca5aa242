-- ===== src/Log.antt =====
-- log/log.go: the settings of the logger, the file that lines go to and its change by day and size,
-- and the calls that log a line. A text is the list of its character codes, a time a number whose texts
-- the system gives. An open file takes every byte that is written to it; only the opening of a file
-- and the making of a directory fail. logmtx makes the writing of a line one step; the goroutine that
-- saves now and then is a call of `sync_log_file`.
pub mod State
pub mod Files
pub mod Setters
pub mod Extended
pub mod Kept
pub mod Written
pub mod Lost
pub mod Buffered
use Prim.Native.Nat.{bit_and}
use cc_be_chat_test.Common.{
  ℕ, zero, suc, ◌+◌, ◌/◌, ◌%◌, Bool, true, false, not, ◌&&◌, ◌||◌, Option, none, some, List, [],
  ◌∷◌, ◌++◌, length, leb, ltb, ◌==◌, if◌then◌else◌, Outcome, ok, err, panic,
}
use cc_be_chat_test.Log.State.{String, System, Log, digits}
use cc_be_chat_test.Log.Files.{write_to_file, init_log_dir_and_file, sync_log_file}

-- "./logs/", "20060102-150405/", "20060102/", "20060102", ".log" and "2006-01-02 15:04:05.000"
abbrev logs_dir : String
logs_dir = 46 ∷ 47 ∷ 108 ∷ 111 ∷ 103 ∷ 115 ∷ 47 ∷ []

abbrev dir_format : String
dir_format = 50 ∷ 48 ∷ 48 ∷ 54 ∷ 48 ∷ 49 ∷ 48 ∷ 50 ∷ 45 ∷ 49 ∷ 53 ∷ 48 ∷ 52 ∷ 48 ∷ 53 ∷ 47 ∷ []

abbrev sub_dir_format : String
sub_dir_format = 50 ∷ 48 ∷ 48 ∷ 54 ∷ 48 ∷ 49 ∷ 48 ∷ 50 ∷ 47 ∷ []

abbrev file_format : String
file_format = 50 ∷ 48 ∷ 48 ∷ 54 ∷ 48 ∷ 49 ∷ 48 ∷ 50 ∷ []

abbrev suffix : String
suffix = 46 ∷ 108 ∷ 111 ∷ 103 ∷ []

abbrev str_format : String
str_format =
    50 ∷ 48 ∷ 48 ∷ 54 ∷ 45 ∷ 48 ∷ 49 ∷ 45 ∷ 48 ∷ 50 ∷ 32 ∷ 49 ∷ 53 ∷ 58 ∷ 48 ∷ 52 ∷ 58 ∷ 48 ∷ 53
    ∷ 46 ∷ 48 ∷ 48 ∷ 48 ∷ []

-- The package's variables at the start, with files that the system has already.
abbrev pub initial : ℕ → (String → String) → Log
initial inittime files = record {
  logdir = logs_dir;
  logdirinited = false;
  currlogdir = [];
  logfile = none;
  filewriter = none;
  logfilename = [];
  logfilesubnum = 0;
  logfilesize = 0;
  maxfilesize = 0;
  logdebugtype = 1;
  loginfotype = 1;
  logwarntype = 1;
  logerrortype = 1;
  loglevel = 0;
  save_each = false;
  enablebufio = false;
  enablenewdir = false;
  enable_subdir = false;
  has_output = false;
  inittime = inittime;
  initsync = false;
  formater = none;
  log_dir_name_format = dir_format;
  log_subdir_name_format = sub_dir_format;
  log_file_name_format = file_format;
  log_sufix = suffix;
  log_str_format = str_format;
  files = files;
  console = [];
  given = [];
}

-- What a call is about: the time, the file and the line that it stands in if they are known, and what it
-- is given.
pub record Call : Type 0 where
  pub now : ℕ
  pub caller : Option (String × ℕ)
  pub args : String

-- The path behind its last slash; `name` is the path from the last slash seen so far.
abbrev pub after_slash : String → String → String
after_slash [] name = name
after_slash (c ∷ path) name =
    let found = after_slash path path in
    let kept = after_slash path name in if c == 47 then found else kept

abbrev pub decimal : ℕ → String
decimal n = if n == 0 then 48 ∷ [] else digits n n

-- `[file:line]` and a space; `unknown` is the line when there is none.
abbrev pub place : Call → String → String
place call unknown = elim call.caller [
  | none ↦ 91 ∷ 63 ∷ 63 ∷ 63 ∷ 58 ∷ (unknown ++ (93 ∷ 32 ∷ []))
  | some (file, line) ↦ 91 ∷ (after_slash file file ++ (58 ∷ (decimal line ++ (93 ∷ 32 ∷ []))))
]

-- The line: the time, what stands for the level, the text and a line feed, joined by nothing.
abbrev pub joined : System → Log → Call → String → String
joined sys log call tag =
    sys.format call.now log.log_str_format ++ (tag ++ (sys.sprintf call.args ++ (10 ∷ [])))

abbrev pub formatted : System → Log → Call → String → String
formatted sys log call tag = elim log.formater [
  | none ↦ joined sys log call tag
  | some f ↦ f call.args
]

-- `t & LogFile != 0`, and so on.
abbrev pub has : ℕ → ℕ → Bool
has t flag = not (bit_and t flag == 0)

abbrev pub log_cmd : ℕ
log_cmd = 1

abbrev pub log_file : ℕ
log_file = 2

abbrev pub log_user : ℕ
log_user = 4

-- userlogger
abbrev pub give_user : Log → String → Log
give_user log s = if log.has_output then record log { given = log.given ++ (s ∷ []) } else log

-- Where a line of the type `t` goes.
unfoldable pub emit : System → Log → ℕ → ℕ → String → Log
emit sys log t now s =
    let filed = if has t log_file then write_to_file sys log now s else log in
    let shown =
      if has t log_cmd
      then record filed { console = filed.console ++ (sys.printf s ∷ []) }
      else filed in
    if has t log_user then give_user shown s else shown

-- " [Debug] ", " [ Info] ", " [ Warn] " and " [Error] "
abbrev pub debug_tag : String
debug_tag = 32 ∷ 91 ∷ 68 ∷ 101 ∷ 98 ∷ 117 ∷ 103 ∷ 93 ∷ 32 ∷ []

abbrev pub info_tag : String
info_tag = 32 ∷ 91 ∷ 32 ∷ 73 ∷ 110 ∷ 102 ∷ 111 ∷ 93 ∷ 32 ∷ []

abbrev pub warn_tag : String
warn_tag = 32 ∷ 91 ∷ 32 ∷ 87 ∷ 97 ∷ 114 ∷ 110 ∷ 93 ∷ 32 ∷ []

abbrev pub error_tag : String
error_tag = 32 ∷ 91 ∷ 69 ∷ 114 ∷ 114 ∷ 111 ∷ 114 ∷ 93 ∷ 32 ∷ []

-- "-1" and "0"
abbrev pub minus_one : String
minus_one = 45 ∷ 49 ∷ []

abbrev pub zero_text : String
zero_text = 48 ∷ []

unfoldable pub debug : System → Log → Call → Log
debug sys log call =
    let s = formatted sys log call (debug_tag ++ place call minus_one) in
    if leb log.loglevel 0 then emit sys log log.logdebugtype call.now s else log

unfoldable pub info : System → Log → Call → Log
info sys log call =
    let s = formatted sys log call (info_tag ++ place call zero_text) in
    if leb log.loglevel 1 then emit sys log log.loginfotype call.now s else log

unfoldable pub warn : System → Log → Call → Log
warn sys log call =
    let s = formatted sys log call (warn_tag ++ place call zero_text) in
    if leb log.loglevel 2 then emit sys log log.logwarntype call.now s else log

unfoldable pub error : System → Log → Call → Log
error sys log call =
    let s = formatted sys log call (error_tag ++ place call zero_text) in
    if leb log.loglevel 3 then emit sys log log.logerrortype call.now s else log

-- DebugX and the others use neither the formater nor the place.
unfoldable pub debug_x : System → Log → Call → Log
debug_x sys log call =
    let s = joined sys log call debug_tag in
    if leb log.loglevel 0 then emit sys log log.logdebugtype call.now s else log

unfoldable pub info_x : System → Log → Call → Log
info_x sys log call =
    let s = joined sys log call info_tag in
    if leb log.loglevel 1 then emit sys log log.loginfotype call.now s else log

unfoldable pub warn_x : System → Log → Call → Log
warn_x sys log call =
    let s = joined sys log call warn_tag in
    if leb log.loglevel 2 then emit sys log log.logwarntype call.now s else log

unfoldable pub error_x : System → Log → Call → Log
error_x sys log call =
    let s = joined sys log call error_tag in
    if leb log.loglevel 3 then emit sys log log.logerrortype call.now s else log

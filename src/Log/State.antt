-- ===== src/Log/State.antt =====
-- The variables of log/log.go, and Go's bufio.Writer, which keeps up to 4096 bytes back.
use cc_be_chat_test.Common.{
  ℕ, zero, suc, ◌+◌, ◌-◌, ◌/◌, ◌%◌, Bool, true, false, ◌||◌, Option, none, some, List, [], ◌∷◌,
  ◌++◌, length, take, drop, leb, ◌==◌, eq_text, if◌then◌else◌,
}

abbrev pub String : Type 0
String = List ℕ

-- The texts of a time and of the arguments of a call, what Printf makes of a format alone, and
-- which directories can be made and which files opened.
pub record System : Type 0 where
  pub format : ℕ → String → String
  pub mkdir : String → Bool
  pub opens : String → Bool
  pub sprintf : String → String
  pub printf : String → String

-- What the writer keeps back, and whether it has failed; it fails for good when it writes to a file
-- that is closed.
pub record Writer : Type 0 where
  pub pending : String
  pub failed : Bool

-- The variables of the package. `logfile` is the path of the open file, which `filewriter` writes
-- to; its file is closed when there is none. `files` is what the files hold, `console` what was
-- printed, `given` what the user's writer was given.
pub record Log : Type 0 where
  pub logdir : String
  pub logdirinited : Bool
  pub currlogdir : String
  pub logfile : Option String
  pub filewriter : Option Writer
  pub logfilename : String
  pub logfilesubnum : ℕ
  pub logfilesize : ℕ
  pub maxfilesize : ℕ
  pub logdebugtype : ℕ
  pub loginfotype : ℕ
  pub logwarntype : ℕ
  pub logerrortype : ℕ
  pub loglevel : ℕ
  pub save_each : Bool
  pub enablebufio : Bool
  pub enablenewdir : Bool
  pub enable_subdir : Bool
  pub has_output : Bool
  pub inittime : ℕ
  pub initsync : Bool
  pub formater : Option (String → String)
  pub log_dir_name_format : String
  pub log_subdir_name_format : String
  pub log_file_name_format : String
  pub log_sufix : String
  pub log_str_format : String
  pub files : String → String
  pub console : List String
  pub given : List String

-- The digits of a number, the first of them last in the recursion.
abbrev pub digits : ℕ → ℕ → String
digits zero n = []
digits (suc fuel) n =
    let rest = digits fuel (n / 10) in if n == 0 then [] else rest ++ ((48 + n % 10) ∷ [])

-- `%04d`
abbrev pub four_digits : ℕ → String
four_digits n =
    digits n (n / 10000)
    ++ ((48 + n / 1000 % 10) ∷ (48 + n / 100 % 10) ∷ (48 + n / 10 % 10) ∷ (48 + n % 10) ∷ [])

-- A write to a path, where a file is that is opened to append.
abbrev pub append_to : (String → String) → String → String → String → String
append_to files path text p = if eq_text path p then files p ++ text else files p

abbrev pub put_at : Log → String → String → Log
put_at log path text = record log { files = append_to log.files path text }

-- A write to the open file; the answer is whether there is one.
abbrev pub put_by : Log → String → Option String → Log × Bool
put_by log text none = (log, false)
put_by log text (some path) = (put_at log path text, true)

abbrev pub put : Log → String → Log × Bool
put log text = put_by log text log.logfile

-- `Flush` of the writer.
unfoldable pub flush : Log → Writer → Log × Writer
flush log w =
    let written = put log w.pending in
    if w.failed || (length w.pending == 0)
    then (log, w)
    else if written.1
    then (written.0, record { pending = []; failed = false })
    else (log, record w { failed = true })

abbrev pub flush_by : Log → Option Writer → Log
flush_by log none = log
flush_by log (some w) =
    let flushed = flush log w in record flushed.0 { filewriter = some flushed.1 }

unfoldable pub flush_log : Log → Log
flush_log log = flush_by log log.filewriter

-- A text longer than what the empty writer keeps goes to the file.
abbrev pub pass_on : Log → Writer → String → Log × Bool
pass_on log w text =
    let written = put log text in
    if leb (length text) 4096
    then (record log { filewriter = some (record w { pending = text }) }, true)
    else if written.1
    then (record written.0 { filewriter = some w }, true)
    else (record log { filewriter = some (record w { failed = true }) }, false)

-- What is left of a text, once the writer has saved what it kept back.
abbrev pub after_flush : Log × Writer → String → Log × Bool
after_flush flushed rest =
    if flushed.1.failed
    then (record flushed.0 { filewriter = some flushed.1 }, false)
    else pass_on flushed.0 flushed.1 rest

-- `WriteString` of the writer: whether it took all of the text.
unfoldable pub write_buffered : Log → Writer → String → Log × Bool
write_buffered log w text =
    let available = 4096 - length w.pending in
    let filled = record w { pending = w.pending ++ take available text } in
    let flushed = flush log filled in
    if w.failed
    then (log, false)
    else if leb (length text) available
    then (record log { filewriter = some (record w { pending = w.pending ++ text }) }, true)
    else if length w.pending == 0
    then pass_on log w text
    else after_flush flushed (drop available text)

-- ===== src/Log/Files.antt =====
-- The files of log/log.go: checkFile, newFile, the writing of a line and its saving.
use cc_be_chat_test.Common.{
  ℕ, ◌+◌, Bool, true, false, not, ◌&&◌, Option, none, some, [], ◌∷◌, ◌++◌, length, ltb, ◌==◌,
  eq_text, if◌then◌else◌, Outcome, ok, panic,
}
use cc_be_chat_test.Log.State.{
  String, System, Writer, Log, four_digits, put_at, put, flush_log, write_buffered,
}

-- newFile sets the size to what the file holds; the writer starts anew.
unfoldable pub new_file : System → Log → String → Log × Option String
new_file sys log path = if not (sys.opens path) then (log, none) else (
  record log {
    logfilesize = length (log.files path);
    filewriter =
        (if log.enablebufio
          then some (record { pending = []; failed = false })
          else log.filewriter);
  },
  some path,
)

abbrev pub now_log_dir : System → Log → ℕ → String
now_log_dir sys log now =
    let dir =
      (if log.enablenewdir
        then log.logdir ++ sys.format log.inittime log.log_dir_name_format
        else log.logdir) in
    if log.enable_subdir then dir ++ sys.format now log.log_subdir_name_format else dir

-- `Sprintf("%s%s%s", ...)`, and with `.%04d`.
abbrev pub plain_name : System → Log → String → ℕ → String
plain_name sys log dir now = dir ++ (sys.format now log.log_file_name_format ++ log.log_sufix)

abbrev pub numbered_name : System → Log → String → ℕ → ℕ → String
numbered_name sys log dir now num = plain_name sys log dir now ++ (46 ∷ four_digits num)

abbrev pub curr_name : System → Log → String → ℕ → String
curr_name sys log dir now =
    if log.logfilesubnum == 0
    then plain_name sys log dir now
    else numbered_name sys log dir now log.logfilesubnum

-- The writer saves what it keeps back, and the file is closed.
abbrev pub close_file : Log → Log
close_file log =
    if log.enablebufio
    then (elim log.filewriter [ none ↦ log | some w ↦ record (flush_log log) { logfile = none } ])
    else record log { logfile = none }

-- The file that was opened takes the place of the one before, and its size is then taken to be 0.
abbrev pub use_opened : Log × Option String → Log × Bool
use_opened opened = elim opened.1 [
  | none ↦ (record opened.0 { logfile = none }, false)
  | some path ↦ (record opened.0 { logfile = some path; logfilesize = 0 }, true)
]

-- The file of the name is opened in place of the one before.
unfoldable pub replace_file : System → Log → Log × Bool
replace_file sys log = use_opened (new_file sys (close_file log) log.logfilename)

abbrev pub start_sync : Log → Log
start_sync log =
    if not log.initsync && not log.save_each then record log { initsync = true } else log

abbrev pub in_dir : System → Log → ℕ → Log
in_dir sys log now = record log { currlogdir = now_log_dir sys log now }

-- The logger with the first name of the day, and with the next number.
abbrev pub renamed : System → Log → ℕ → Log
renamed sys log now = record (in_dir sys log now) {
  logfilesubnum = 0;
  logfilename = plain_name sys log (now_log_dir sys log now) now;
}

abbrev pub numbered : System → Log → ℕ → Log
numbered sys log now = record (in_dir sys log now) {
  logfilesubnum = log.logfilesubnum + 1;
  logfilename = numbered_name sys log (now_log_dir sys log now) now (log.logfilesubnum + 1);
}

abbrev pub has_name : System → Log → ℕ → Bool
has_name sys log now = eq_text log.logfilename (curr_name sys log (now_log_dir sys log now) now)

abbrev pub is_full : Log → ℕ → Bool
is_full log newsize = ltb 0 log.maxfilesize && ltb log.maxfilesize (log.logfilesize + newsize)

-- checkFile, with its answer, which no caller reads.
unfoldable pub check_file : System → Log → ℕ → ℕ → Log × Bool
check_file sys log now newsize =
    let grown = replace_file sys (numbered sys log now) in
    if not (sys.mkdir (now_log_dir sys log now))
    then (in_dir sys log now, false)
    else if not (has_name sys log now)
    then replace_file sys (renamed sys log now)
    else if is_full log newsize
    then (if grown.1 then (start_sync grown.0, true) else grown)
    else (start_sync (in_dir sys log now), true)

-- Sync does nothing to what a file holds.
unfoldable pub sync_log_file : Log → Log
sync_log_file log = if log.enablebufio then flush_log log else log

-- The write to the writer or to the file; with neither, nothing is taken, and no error is seen.
abbrev pub write_by : Log → String → Bool → Option Writer → Option String → Log × Bool
write_by log text true none file = (log, length text == 0)
write_by log text true (some w) file = write_buffered log w text
write_by log text false writer none = (log, length text == 0)
write_by log text false writer (some path) = (put_at log path text, true)

unfoldable pub write_string : Log → String → Log × Bool
write_string log text = write_by log text log.enablebufio log.filewriter log.logfile

-- SaveEach, and `logfilesize += len(str)` when all was taken.
abbrev pub finish_write : Bool → ℕ → Log × Bool → Log
finish_write save_each size written =
    let saved = if save_each then sync_log_file written.0 else written.0 in
    if written.1 then record saved { logfilesize = saved.logfilesize + size } else saved

unfoldable pub write_to_file : System → Log → ℕ → String → Log
write_to_file sys log now text =
    let checked = check_file sys log now (length text) in
    finish_write log.save_each (length text) (write_string checked.0 text)

unfoldable pub init_log_dir_and_file : System → Log → Log
init_log_dir_and_file sys log =
    if log.logdirinited
    then log
    else record log { logdirinited = true; currlogdir = now_log_dir sys log log.inittime }

-- `logfilesize += len(p)` when all was taken.
abbrev pub count_bytes : String → Log × Bool → Log × Bool
count_bytes bytes written =
    let sized : Log = record written.0 { logfilesize = written.0.logfilesize + length bytes } in
    if written.1 then (sized, true) else (written.0, false)

-- writebuftofile, for FileWriter; a writer that was never made panics, a file that is not there is
-- an error. The answer is whether all of the bytes were taken.
unfoldable pub write_buf_to_file : System → Log → ℕ → String → Outcome (Unit {0}) (Log × Bool)
write_buf_to_file sys log now bytes =
    let checked = (check_file sys log now (length bytes)).0 in
    if checked.enablebufio
    then (elim checked.filewriter [
      | none ↦ panic
      | some w ↦ ok (count_bytes bytes (write_buffered checked w bytes))
    ])
    else ok (count_bytes bytes (put checked bytes))

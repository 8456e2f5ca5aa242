-- ===== src/Log/Kept.antt =====
-- Nothing that a file holds is ever taken away.
use mathlib.Core.Path.{subst}
use cc_be_chat_test.Common.{
  Outcome, ok, err, panic, ℕ, ◌+◌, ◌≡◌, refl, Bool, true, false, Option, none, some, [], ◌∷◌, ◌++◌,
  length, ◌==◌, if◌then◌else◌,
}
use cc_be_chat_test.Log.{emit, has, log_file, log_cmd, log_user}
use cc_be_chat_test.Log.State.{String, System, Writer, Log, put, write_buffered, put_at}
use cc_be_chat_test.Log.Files.{
  count_bytes, write_buf_to_file, check_file, sync_log_file, write_by, write_string, write_to_file,
}
use cc_be_chat_test.Log.Extended.{
  IsExtended, same_files, IsExtended-trans, both, either, IsExtendedBy, ended, end_of,
  append_to-IsExtended, put-IsExtended, flush_log-IsExtended, write_buffered-IsExtended,
  check_file-IsExtended,
}

write_by-IsExtended :
    (log : Log) (text : String) (b : Bool) (writer : Option Writer) (file : Option String)
    → IsExtendedBy log (write_by log text b writer file)
unfolding IsExtended
write_by-IsExtended log text true none file =
    ended log (log, length text == 0) (same_files log log refl)
write_by-IsExtended log text true (some w) file = write_buffered-IsExtended log w text
write_by-IsExtended log text false writer none =
    ended log (log, length text == 0) (same_files log log refl)
write_by-IsExtended log text false writer (some path) =
    ended log (put_at log path text, true) (append_to-IsExtended log path text)

write_string-IsExtended : (log : Log) (text : String) → IsExtendedBy log (write_string log text)
unfolding write_string
write_string-IsExtended log text =
    write_by-IsExtended log text log.enablebufio log.filewriter log.logfile

sync_log_file-IsExtended : (log : Log) → IsExtended log (sync_log_file log)
unfolding sync_log_file
sync_log_file-IsExtended log =
    both (IsExtended log) log.enablebufio (flush_log-IsExtended log) (same_files log log refl)

-- Counting what was written changes no file.
sized-IsExtended :
    (log saved : Log) (b : Bool) (size : ℕ)
    → IsExtended log saved
    → IsExtended log (if b then record saved { logfilesize = size } else saved)
sized-IsExtended log saved true size h = IsExtended-trans log saved _ h (same_files saved _ refl)
sized-IsExtended log saved false size h = h

write_to_file-IsExtended :
    (sys : System) (log : Log) (now : ℕ) (text : String)
    → IsExtended log (write_to_file sys log now text)
unfolding write_to_file
write_to_file-IsExtended sys log now text =
    let checked = (check_file sys log now (length text)).0 in
    let written = write_string checked text in
    let saved = (if log.save_each then sync_log_file written.0 else written.0) in
    IsExtended-trans log checked _ (end_of log _ (check_file-IsExtended sys log now (length text)))
      (IsExtended-trans checked written.0 _
        (end_of checked _ (write_string-IsExtended checked text))
        (sized-IsExtended written.0 saved written.1 (saved.logfilesize + length text) (
          both (IsExtended written.0) log.save_each (sync_log_file-IsExtended written.0)
            (same_files written.0 written.0 refl))))

emit-IsExtended :
    (sys : System) (log : Log) (t now : ℕ) (s : String) → IsExtended log (emit sys log t now s)
unfolding emit
emit-IsExtended sys log t now s =
    let filed = (if has t log_file then write_to_file sys log now s else log) in
    let printed : Log = record filed { console = filed.console ++ (sys.printf s ∷ []) } in
    let shown = (if has t log_cmd then printed else filed) in
    let to_file =
      both (IsExtended log) (has t log_file) (write_to_file-IsExtended sys log now s)
        (same_files log log refl) in
    let to_console =
      both (IsExtended filed) (has t log_cmd) (same_files filed printed refl)
        (same_files filed filed refl) in
    let to_user =
      both (IsExtended shown) (has t log_user)
        (both (IsExtended shown) shown.has_output (same_files shown _ refl)
          (same_files shown shown refl))
        (same_files shown shown refl) in
    IsExtended-trans log filed _ to_file (IsExtended-trans filed shown _ to_console to_user)

-- A call that panics leaves no state.
IsExtendedIfOk : Log → Outcome (Unit {0}) (Log × Bool) → Type 0
IsExtendedIfOk log (ok r) = IsExtended log r.0
IsExtendedIfOk log (err e) = Unit {0}
IsExtendedIfOk log panic = Unit {0}

count_bytes-IsExtended :
    (log : Log) (bytes : String) (r : Log × Bool)
    → IsExtended log r.0
    → IsExtended log (count_bytes bytes r).0
count_bytes-IsExtended log bytes (l, true) h = IsExtended-trans log l _ h (same_files l _ refl)
count_bytes-IsExtended log bytes (l, false) h = h

write_buf_to_file-IsExtended :
    (sys : System) (log : Log) (now : ℕ) (bytes : String)
    → IsExtendedIfOk log (write_buf_to_file sys log now bytes)
unfolding write_buf_to_file IsExtendedIfOk
write_buf_to_file-IsExtended sys log now bytes =
    let checked = (check_file sys log now (length bytes)).0 in
    let until_checked = end_of log _ (check_file-IsExtended sys log now (length bytes)) in
    both (IsExtendedIfOk log) checked.enablebufio
      (either (IsExtendedIfOk log) checked.filewriter tt λ w.
        count_bytes-IsExtended log bytes (write_buffered checked w bytes) (
          IsExtended-trans log checked _ until_checked
            (end_of checked _ (write_buffered-IsExtended checked w bytes))))
      (count_bytes-IsExtended log bytes (put checked bytes)
        (IsExtended-trans log checked _ until_checked (put-IsExtended checked bytes)))

after_ok :
    (log : Log) (r : Log × Bool) (o : Outcome (Unit {0}) (Log × Bool))
    → o ≡ ok r
    → IsExtendedIfOk log o
    → IsExtended log r.0
unfolding IsExtendedIfOk
after_ok log r o e h = subst (IsExtendedIfOk log) e h

-- What a program does to the logger: it logs lines, writes bytes, saves, and changes the settings.
pub data Use (sys : System) (log : Log) : Log → Type 0 where
  start : Use sys log log
  line : {l : Log} → Use sys log l → (t now : ℕ) (s : String) → Use sys log (emit sys l t now s)
  bytes_written :
      {l : Log}
      → Use sys log l
      → (now : ℕ) (bytes : String) (r : Log × Bool) → write_buf_to_file sys l now bytes ≡ ok r
      → Use sys log r.0
  saving : {l : Log} → Use sys log l → Use sys log (sync_log_file l)
  setting : {l : Log} → Use sys log l → (l' : Log) → l'.files ≡ l.files → Use sys log l'

-- However a program uses the logger, and whatever cannot be made or opened, every file still holds what
-- it held, with more behind it at most.
pub Use-IsExtended : (sys : System) (log log' : Log) → Use sys log log' → IsExtended log log'
Use-IsExtended sys log log' Use.start = same_files log log refl
Use-IsExtended sys log log' (Use.line {l} u t now s) =
    IsExtended-trans log l _ (Use-IsExtended sys log l u) (emit-IsExtended sys l t now s)
Use-IsExtended sys log log' (Use.bytes_written {l} u now bytes r e) =
    IsExtended-trans log l r.0 (Use-IsExtended sys log l u) (
      after_ok l r (write_buf_to_file sys l now bytes) e
        (write_buf_to_file-IsExtended sys l now bytes))
Use-IsExtended sys log log' (Use.saving {l} u) =
    IsExtended-trans log l _ (Use-IsExtended sys log l u) (sync_log_file-IsExtended l)
Use-IsExtended sys log log' (Use.setting {l} u next e) =
    IsExtended-trans log l _ (Use-IsExtended sys log l u) (same_files l next e)

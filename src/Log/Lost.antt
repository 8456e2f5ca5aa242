-- ===== src/Log/Lost.antt =====
-- A file that cannot be opened: the lines of its day are lost.
use cc_be_chat_test.Common.{
  ℕ, ◌+◌, ◌≡◌, refl, ap, ap₂, ◌∙◌, Bool, true, false, not, ◌&&◌, none, List, [], ◌∷◌, length, ◌==◌,
  if◌then◌else◌, arith, All,
}
use cc_be_chat_test.Log.Written.{close_lem}
use cc_be_chat_test.Log.State.{String, System, Log}
use cc_be_chat_test.Log.Files.{
  new_file, replace_file, use_opened, check_file, has_name, is_full, in_dir, renamed, sync_log_file,
  write_by, write_string, finish_write, write_to_file,
}

-- Lines, each with its time, one after the other.
abbrev pub write_lines : System → Log → List (ℕ × String) → Log
write_lines sys log [] = log
write_lines sys log ((time, text) ∷ lines) = write_lines sys (write_to_file sys log time text) lines

-- The logger has the name for each of the times that `At` holds of, but no file.
record IsStuck (sys : System) (At : ℕ → Type 0) (files : String → String) (log : Log) : Type 0 where
  direct : log.enablebufio ≡ false
  closed : log.logfile ≡ none
  unlimited : log.maxfilesize ≡ 0
  named : (time : ℕ) → At time → has_name sys log time ≡ true
  same : log.files ≡ files

module _ (sys : System) (At : ℕ → Type 0) (files : String → String) where
  saved_same :
      (log : Log) (b : Bool)
      → log.enablebufio ≡ false
      → (if b then sync_log_file log else log) ≡ log
  unfolding sync_log_file
  saved_same log true direct = rw (direct) refl
  saved_same log false direct = refl

  recounted :
      (log : Log) (c : Bool) (size : ℕ)
      → IsStuck sys At files log
      → IsStuck sys At files (if c then record log { logfilesize = size } else log)
  recounted log true size s = record {
    direct = s.direct;
    closed = s.closed;
    unlimited = s.unlimited;
    named = s.named;
    same = s.same;
  }
  recounted log false size s = s

  finished :
      (log : Log) (b : Bool) (size : ℕ) (c : Bool)
      → IsStuck sys At files log
      → IsStuck sys At files (finish_write b size (log, c))
  finished log b size c s =
      rw (saved_same log b s.direct) (recounted log c (log.logfilesize + size) s)

  -- A line that finds no file changes none.
  written_nowhere :
      (log : Log) (b : Bool) (text : String)
      → IsStuck sys At files log
      → IsStuck sys At files (finish_write b (length text) (write_string log text))
  unfolding write_string
  written_nowhere log b text s =
      let nowhere : write_string log text ≡ (log, length text == 0) =
        ap₂ (λ buffered file. write_by log text buffered log.filewriter file) s.direct s.closed in
      rw (nowhere) (finished log b (length text) (length text == 0) s)

  started :
      (log : Log) (b : Bool)
      → IsStuck sys At files log
      → IsStuck sys At files (if b then record log { initsync = true } else log)
  started log true s = record {
    direct = s.direct;
    closed = s.closed;
    unlimited = s.unlimited;
    named = s.named;
    same = s.same;
  }
  started log false s = s

  checked_stuck :
      (log : Log) (now size : ℕ)
      → At now
      → (able : (dir : String) → sys.mkdir dir ≡ true) → IsStuck sys At files log
      → IsStuck sys At files (check_file sys log now size).0
  unfolding check_file
  checked_stuck log now size at able s =
      let here = in_dir sys log now in
      let room : is_full log size ≡ false = ground (arith, s.unlimited) in
      let here_stuck : IsStuck sys At files here = record {
        direct = s.direct;
        closed = s.closed;
        unlimited = s.unlimited;
        named = s.named;
        same = s.same;
      } in
      rw (able, s.named now at, room)
        (started here (not here.initsync && not here.save_each) here_stuck)

  stays :
      (log : Log) (now : ℕ) (text : String)
      → At now
      → (able : (dir : String) → sys.mkdir dir ≡ true) → IsStuck sys At files log
      → IsStuck sys At files (write_to_file sys log now text)
  unfolding write_to_file
  stays log now text at able s =
      let checked = (check_file sys log now (length text)).0 in
      written_nowhere checked log.save_each text (checked_stuck log now (length text) at able s)

  stays_throughout :
      (lines : List (ℕ × String)) (log : Log)
      → All (λ line. At line.0) lines
      → (able : (dir : String) → sys.mkdir dir ≡ true) → IsStuck sys At files log
      → IsStuck sys At files (write_lines sys log lines)
  stays_throughout [] log at able s = s
  stays_throughout ((time, text) ∷ lines) log (at, later) able s =
      stays_throughout lines (write_to_file sys log time text) later able
        (stays log time text at able s)

replace_failed :
    (sys : System) (log : Log)
    → ((path : String) → sys.opens path ≡ false)
    → log.enablebufio ≡ false
    → replace_file sys log ≡ (record log { logfile = none }, false)
unfolding replace_file new_file
replace_failed sys log shut direct =
    let not_opened : (l : Log) → new_file sys l log.logfilename ≡ (l, none) =
      λ l. rw (new_file, shut log.logfilename) refl in
    ap (λ l. use_opened (new_file sys l log.logfilename)) (close_lem log direct)
    ∙ ap use_opened (not_opened (record log { logfile = none }))

-- When the file of a new name cannot be opened, without a buffer and a limit: the line is lost, and so
-- is every further line, at whatever time, as long as the name for that time is the same, though every
-- file could be opened by then.
pub file_lost :
    (sys : System) (log : Log) (now : ℕ) (text : String) (lines : List (ℕ × String))
    → log.enablebufio ≡ false
    → log.maxfilesize ≡ 0
    → has_name sys log now ≡ false
    → ((dir : String) → sys.mkdir dir ≡ true)
    → ((path : String) → sys.opens path ≡ false)
    → All (λ line. has_name sys (renamed sys log now) line.0 ≡ true) lines
    → (write_lines
        (record sys { opens = λ path. true })
        (write_to_file sys log now text)
        lines).files
      ≡ log.files
unfolding write_to_file check_file
file_lost sys log now text lines direct unlimited other mkdirs shut same_name =
    let sys' : System = record sys { opens = λ path. true } in
    let At : ℕ → Type 0 = λ time. has_name sys (renamed sys log now) time ≡ true in
    let gone : Log = record (renamed sys log now) { logfile = none } in
    let failed = replace_failed sys (renamed sys log now) shut direct in
    let checked : (check_file sys log now (length text)).0 ≡ gone =
      rw (mkdirs, other) (ap (λ r. r.0) failed) in
    let stuck : IsStuck sys' At log.files gone = record {
      direct = direct;
      closed = refl;
      unlimited = unlimited;
      same = refl;
      named = λ time at. at;
    } in
    let first : IsStuck sys' At log.files (write_to_file sys log now text) =
      rw (checked) (written_nowhere sys' At log.files gone log.save_each text stuck) in
    (stays_throughout sys' At log.files lines (write_to_file sys log now text) same_name mkdirs
      first).same

-- ===== src/Log/Written.antt =====
-- Without the buffering writer, a line stands in the file of its day and number once it is written.
use cc_be_chat_test.Common.{
  ℕ, ◌+◌, ◌≤◌, ◌<◌, ◌≡◌, ◌⊎◌, refl, ap, ap₂, ◌∙◌, inl, inr, Bool-cases, Bool, true, false, not,
  ◌&&◌, none, some, length, if◌then◌else◌, arith,
}
use cc_be_chat_test.Log.State.{String, System, Log, append_to, put_at}
use cc_be_chat_test.Log.Files.{
  use_opened, finish_write, new_file, close_file, replace_file, start_sync, check_file, has_name,
  is_full, in_dir, renamed, numbered, sync_log_file, write_by, write_string, write_to_file,
}

-- Every directory can be made and every file opened.
pub record IsAble (sys : System) : Type 0 where
  pub mkdirs : (dir : String) → sys.mkdir dir ≡ true
  pub opens : (path : String) → sys.opens path ≡ true

-- The logger writes to the file of its name without a buffer.
pub record IsOpen (log : Log) : Type 0 where
  pub unbuffered : log.enablebufio ≡ false
  pub open_file : log.logfile ≡ some log.logfilename

-- The logger goes on with the file that it has, which has room, or has opened another, counted from 0.
pub record Checked (log : Log) (newsize : ℕ) (log' : Log) : Type 0 where
  pub ready : IsOpen log'
  pub files_kept : log'.files ≡ log.files
  pub limit_kept : log'.maxfilesize ≡ log.maxfilesize
  pub size :
      (log'.logfilesize ≡ 0)
      ⊎ ((log'.logfilesize ≡ log.logfilesize) × (is_full log newsize ≡ false))

pub close_lem :
    (log : Log) → log.enablebufio ≡ false → close_file log ≡ record log { logfile = none }
close_lem log direct = rw (direct) refl

module _ (sys : System) (able : IsAble sys) where
  new_lem :
      (log : Log) (path : String)
      → log.enablebufio ≡ false
      → new_file sys log path ≡ (record log { logfilesize = length (log.files path) }, some path)
  unfolding new_file
  new_lem log path direct = rw (able.opens path, direct) refl

  replaced :
      (log : Log)
      → log.enablebufio ≡ false
      → replace_file sys log
        ≡ (record log { logfile = some log.logfilename; logfilesize = 0 }, true)
  unfolding replace_file
  replaced log direct =
      ap (λ l. use_opened (new_file sys l log.logfilename)) (close_lem log direct)
      ∙ ap use_opened (new_lem (record log { logfile = none }) log.logfilename direct)

  module _ (log : Log) (now newsize : ℕ) (direct : log.enablebufio ≡ false) where
    go_on :
        (log.logfile ≡ some log.logfilename) ⊎ (has_name sys log now ≡ false)
        → has_name sys log now ≡ true
        → log.logfile ≡ some log.logfilename
    go_on (inl ready) same = ready
    go_on (inr other) same = absurd (ground (arith, other, same))

    -- Starting to save now and then changes none of this.
    synced :
        (l : Log)
        → IsOpen l
        → l.files ≡ log.files
        → l.maxfilesize ≡ log.maxfilesize
        → (l.logfilesize ≡ 0) ⊎ ((l.logfilesize ≡ log.logfilesize) × (is_full log newsize ≡ false))
        → Checked log newsize (start_sync l)
    synced l ready kept limit size = elim (Bool-cases (not l.initsync && not l.save_each)) [
      | inl starts ↦ rw (starts) record {
        ready = record { unbuffered = ready.unbuffered; open_file = ready.open_file };
        files_kept = kept;
        limit_kept = limit;
        size = size;
      }
      | inr not_again ↦
          rw (not_again)
            record { ready = ready; files_kept = kept; limit_kept = limit; size = size }
    ]

    checked_lem :
        (log.logfile ≡ some log.logfilename) ⊎ (has_name sys log now ≡ false)
        → Checked log newsize (check_file sys log now newsize).0
    unfolding check_file
    checked_lem ready = elim (Bool-cases (has_name sys log now)) [
      | inl same ↦ elim (Bool-cases (is_full log newsize)) [
        | inl full ↦
            rw (able.mkdirs, same, full, replaced (numbered sys log now) direct)
              (synced
                (record (numbered sys log now) {
                  logfile = some (numbered sys log now).logfilename;
                  logfilesize = 0;
                })
                (record { unbuffered = direct; open_file = refl }) refl refl (inl refl))
        | inr room ↦
            rw (able.mkdirs, same, room)
              (synced (in_dir sys log now)
                (record { unbuffered = direct; open_file = go_on ready same }) refl refl
                (inr (refl, room)))
      ]
      | inr other ↦
          rw (able.mkdirs, other, replaced (renamed sys log now) direct)
            record {
              ready = record { unbuffered = direct; open_file = refl };
              files_kept = refl;
              limit_kept = refl;
              size = inl refl;
            }
    ]

-- The write to an open file.
module _ (l : Log) (ready : IsOpen l) (text : String) where
  abbrev line_added : Log
  line_added = put_at l l.logfilename text

  put_lem : write_string l text ≡ (line_added, true)
  unfolding write_string
  put_lem = ap₂ (λ b file. write_by l text b l.filewriter file) ready.unbuffered ready.open_file

  saved_lem : (b : Bool) → (if b then sync_log_file line_added else line_added) ≡ line_added
  unfolding sync_log_file
  saved_lem true = rw (ready.unbuffered) refl
  saved_lem false = refl

module _ (sys : System) (able : IsAble sys) (log : Log) (now : ℕ) (text : String)
    (direct : log.enablebufio ≡ false)
    (ready : (log.logfile ≡ some log.logfilename) ⊎ (has_name sys log now ≡ false)) where
  abbrev checked : Log
  checked = (check_file sys log now (length text)).0

  checked-Checked : Checked log (length text) checked
  checked-Checked = checked_lem sys able log now (length text) direct ready

  write_to_file_lem :
      write_to_file sys log now text ≡ record (line_added checked checked-Checked.ready text) {
        logfilesize = checked.logfilesize + length text;
      }
  unfolding write_to_file
  write_to_file_lem =
      ap (finish_write log.save_each (length text)) (put_lem checked checked-Checked.ready text)
      ∙ ap (λ (l : Log). record l { logfilesize = l.logfilesize + length text })
          (saved_lem checked checked-Checked.ready text log.save_each)

  -- When directories can be made and files opened, and there is no buffer: a line that is written stands
  -- at the end of the file of the logger's name, no other file changes, and the file is open for the next
  -- line. Before, that file was open, or the name is another one now.
  pub write_to_file-IsOpen :
      IsOpen (write_to_file sys log now text)
      × ((path : String)
          → (write_to_file sys log now text).files path
            ≡ append_to log.files (write_to_file sys log now text).logfilename text path)
  write_to_file-IsOpen =
      let ready = checked-Checked.ready in
      let same = λ (path : String).
        ap (λ files. append_to files checked.logfilename text path) checked-Checked.files_kept in
      rw (write_to_file_lem)
        (record { unbuffered = ready.unbuffered; open_file = ready.open_file }, same)

  -- Then the size that is counted for the file is at most the limit, if there is one and the line is no
  -- longer than it.
  pub write_to_file-bounded :
      0 < log.maxfilesize
      → length text ≤ log.maxfilesize
      → (write_to_file sys log now text).logfilesize ≤ log.maxfilesize
  write_to_file-bounded limited fits = rw (write_to_file_lem) (elim checked-Checked.size [
    | inl opened ↦ omega (arith, opened, fits)
    | inr (same, room) ↦ ground (arith, same, room, limited)
  ])

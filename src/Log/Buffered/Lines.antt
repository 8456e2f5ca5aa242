-- ===== src/Log/Buffered/Lines.antt =====
-- The lines of a logger with a buffer, each through checkFile.
use mathlib.Core.Path.{subst⁻¹}
use mathlib.Core.List.{append-nil, append_assoc}
use cc_be_chat_test.Common.{
  ℕ, ◌+◌, ◌≡◌, ◌≤◌, ◌⊎◌, refl, sym, ap, ◌∙◌, Bool, true, false, not, ◌&&◌, All, List, [], ◌∷◌, ◌++◌,
  length, length-append, eq_text, if◌then◌else◌, arith,
}
use cc_be_chat_test.Log.State.{String, System, Log, append_to}
use cc_be_chat_test.Log.Files.{
  in_dir, check_file, has_name, is_full, sync_log_file, write_string, finish_write, write_to_file,
}
use cc_be_chat_test.Log.Lost.{write_lines}
use cc_be_chat_test.Log.Buffered.{
  IsBuffering, KeepsPlace, Took, in_all, append_to-twice, string_taken, saved,
}

-- The texts of the lines, one after the other.
abbrev pub all_of : List (ℕ × String) → String
all_of [] = []
all_of ((time, text) ∷ lines) = text ++ all_of lines

-- There is no limit, or so many bytes more are within it.
abbrev pub HasRoom : Log → ℕ → Type 0
HasRoom log size = (log.maxfilesize ≡ 0) ⊎ (log.logfilesize + size ≤ log.maxfilesize)

-- What a line makes of the logger: the text is taken and counted.
record Logged (path held : String) (log : Log) (size : ℕ) (next : Log) : Type 0 where
  pending : String
  buffering : IsBuffering path pending next
  same : (p : String) → in_all next.files path pending p ≡ in_all log.files path held p
  name : (sys : System) (now : ℕ) → has_name sys next now ≡ has_name sys log now
  limit : next.maxfilesize ≡ log.maxfilesize
  counted : next.logfilesize ≡ log.logfilesize + size

module _ (path held : String) (log : Log) where
  -- Save behind a write.
  saved_too :
      (r : Log × Bool) (each : Bool)
      → Took path log held r
      → Took path log held (if each then sync_log_file r.0 else r.0, true)
  saved_too r false t = record {
    pending = t.pending;
    buffering = t.buffering;
    all = refl;
    same = t.same;
    place = t.place;
  }
  saved_too r true t =
      let s = (saved path t.pending r.0 t.buffering).0 in
      record {
        pending = s.pending;
        buffering = s.buffering;
        all = refl;
        same = λ p. s.same p ∙ t.same p;
        place = record {
          name = λ sys now. s.place.name sys now ∙ t.place.name sys now;
          limit = s.place.limit ∙ t.place.limit;
          size = s.place.size ∙ t.place.size;
        };
      }

  counted_too :
      (size : ℕ) (next : Log)
      → Took path log held (next, true)
      → Logged path held log size (record next { logfilesize = next.logfilesize + size })
  counted_too size next t = record {
    pending = t.pending;
    buffering = record {
      buffered = t.buffering.buffered;
      open_file = t.buffering.open_file;
      writer = t.buffering.writer;
    };
    same = t.same;
    name = t.place.name;
    limit = t.place.limit;
    counted = ap (λ n. n + size) t.place.size;
  }

  finished :
      (size : ℕ) (each : Bool) (r : Log × Bool)
      → Took path log held r
      → Logged path held log size (finish_write each size r)
  finished size each r t =
      let next = (if each then sync_log_file r.0 else r.0) in
      let took_all : finish_write each size r
          ≡ record next { logfilesize = next.logfilesize + size } =
        ap (λ b. if b then record next { logfilesize = next.logfilesize + size } else next) t.all in
      subst⁻¹ (Logged path held log size) took_all (counted_too size next (saved_too r each t))

-- A logger that checkFile has left as it was, but for the directory and the flag of the goroutine.
record Checked (path pending : String) (log next : Log) : Type 0 where
  buffering : IsBuffering path pending next
  files : next.files ≡ log.files
  place : KeepsPlace log next

module _ (sys : System) (mkdirs : (dir : String) → sys.mkdir dir ≡ true) (path : String) where
  started :
      (pending : String) (log : Log) (now : ℕ) (b : Bool)
      → IsBuffering path pending log
      → Checked path pending log
          (if b then record (in_dir sys log now) { initsync = true } else in_dir sys log now)
  started pending log now true b = record {
    buffering = record { buffered = b.buffered; open_file = b.open_file; writer = b.writer };
    files = refl;
    place = record { name = λ sys now. refl; limit = refl; size = refl };
  }
  started pending log now false b = record {
    buffering = record { buffered = b.buffered; open_file = b.open_file; writer = b.writer };
    files = refl;
    place = record { name = λ sys now. refl; limit = refl; size = refl };
  }

  checked :
      (pending : String) (log : Log) (now size : ℕ)
      → IsBuffering path pending log
      → has_name sys log now ≡ true
      → HasRoom log size
      → Checked path pending log (check_file sys log now size).0
  unfolding check_file
  checked pending log now size b named room =
      let not_full : is_full log size ≡ false = ground (arith, room) in
      rw (mkdirs, named, not_full)
        (started pending log now (not log.initsync && not log.save_each) b)

  logged :
      (pending text : String) (log : Log) (now : ℕ)
      → IsBuffering path pending log
      → has_name sys log now ≡ true
      → HasRoom log (length text)
      → Logged path (pending ++ text) log (length text) (write_to_file sys log now text)
  unfolding write_to_file
  logged pending text log now b named room =
      let c = checked pending log now (length text) b named room in
      let here = (check_file sys log now (length text)).0 in
      let t = string_taken path pending text here c.buffering in
      let there : Took path log (pending ++ text) (write_string here text) = record {
        pending = t.pending;
        buffering = t.buffering;
        all = t.all;
        same = λ p. t.same p ∙ ap (λ files. in_all files path (pending ++ text) p) c.files;
        place = record {
          name = λ sys now. t.place.name sys now ∙ c.place.name sys now;
          limit = t.place.limit ∙ c.place.limit;
          size = t.place.size ∙ c.place.size;
        };
      } in
      finished path (pending ++ text) log (length text) log.save_each (write_string here text) there

  named_still :
      (log next : Log) (lines : List (ℕ × String))
      → ((now : ℕ) → has_name sys next now ≡ has_name sys log now)
      → All (λ line. has_name sys log line.0 ≡ true) lines
      → All (λ line. has_name sys next line.0 ≡ true) lines
  named_still log next [] same named = named
  named_still log next ((time, text) ∷ lines) same (at, later) =
      (same time ∙ at, named_still log next lines same later)

  -- With a buffer and the file of the path open, directories that can be made, lines at times that
  -- keep the name of the file, and no limit or room for all of them: after these lines, each
  -- through checkFile, and Save, that file holds what it held, what was kept back before and the
  -- lines, in order, and no other file has changed.
  pub sync_log_file-write_lines :
      (lines : List (ℕ × String)) (pending : String) (log : Log)
      → IsBuffering path pending log
      → All (λ line. has_name sys log line.0 ≡ true) lines
      → HasRoom log (length (all_of lines))
      → (p : String)
      → (sync_log_file (write_lines sys log lines)).files p
        ≡ append_to log.files path (pending ++ all_of lines) p
  sync_log_file-write_lines [] pending log b named room p =
      (saved path pending log b).1 p
      ∙ ap (λ held. append_to log.files path held p) (sym (append-nil pending))
  sync_log_file-write_lines ((time, text) ∷ lines) pending log b (at, later) room p =
      let next = write_to_file sys log time text in
      let both = length-append text (all_of lines) in
      let fits : HasRoom log (length text) = ground (arith, room, both) in
      let l = logged pending text log time b at fits in
      let rest : HasRoom next (length (all_of lines)) =
        ground (arith, room, both, l.counted, l.limit) in
      sync_log_file-write_lines lines l.pending next l.buffering
        (named_still log next lines (l.name sys) later) rest p
      ∙ sym (append_to-twice next.files path l.pending (all_of lines) p)
      ∙ ap (λ held. if eq_text path p then held ++ all_of lines else held) (l.same p)
      ∙ append_to-twice log.files path (pending ++ text) (all_of lines) p
      ∙ ap (λ held. append_to log.files path held p) (append_assoc pending text (all_of lines))

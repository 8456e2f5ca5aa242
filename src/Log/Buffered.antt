-- ===== src/Log/Buffered.antt =====
-- The writer that keeps lines back: what it holds and what the file holds.
pub mod Lines
use mathlib.Core.Path.{subst⁻¹}
use mathlib.Core.List.{append-nil, append_assoc}
use cc_be_chat_test.Common.{
  ℕ, ◌-◌, ◌≡◌, refl, sym, ap, ap₂, ◌∙◌, Bool, true, false, some, List, [], ◌∷◌, ◌++◌, length, take,
  drop, take-append-drop, length-append, leb, ◌==◌, eq_text, if◌then◌else◌, arith, by_test,
}
use cc_be_chat_test.Log.State.{
  String, System, Writer, Log, append_to, put, put_by, put_at, flush, flush_by, flush_log, pass_on,
  after_flush, write_buffered,
}
use cc_be_chat_test.Log.Files.{has_name, write_by, write_string, sync_log_file}

abbrev sound : String → Writer
sound pending = record { pending = pending; failed = false }

-- The file at the path is open, and the writer keeps `pending` back for it.
pub record IsBuffering (path pending : String) (log : Log) : Type 0 where
  pub buffered : log.enablebufio ≡ true
  pub open_file : log.logfile ≡ some path
  pub writer : log.filewriter ≡ some (record { pending = pending; failed = false })

-- What a file would hold if the writer kept nothing back.
abbrev pub in_all : (String → String) → String → String → String → String
in_all files path pending p = append_to files path pending p

-- What checkFile asks is answered as before.
pub record KeepsPlace (log next : Log) : Type 0 where
  pub name : (sys : System) (now : ℕ) → has_name sys next now ≡ has_name sys log now
  pub limit : next.maxfilesize ≡ log.maxfilesize
  pub size : next.logfilesize ≡ log.logfilesize

-- All of `text` is taken: it is behind what the file and the writer had, and nothing else changes.
pub record Took (path : String) (log : Log) (held : String) (r : Log × Bool) : Type 0 where
  pub pending : String
  pub buffering : IsBuffering path pending r.0
  pub all : r.1 ≡ true
  pub same : (p : String) → in_all r.0.files path pending p ≡ in_all log.files path held p
  pub place : KeepsPlace log r.0

pub append_to-twice :
    (files : String → String) (path first second p : String)
    → append_to (append_to files path first) path second p
      ≡ append_to files path (first ++ second) p
append_to-twice files path first second p = twice (eq_text path p) (files p)
  where
    twice :
        (b : Bool) (held : String)
        → (if b
            then (if b then held ++ first else held) ++ second
            else if b
            then held ++ first
            else held)
          ≡ (if b then held ++ (first ++ second) else held)
    twice true held = append_assoc held first second
    twice false held = refl

append_to-nil : (files : String → String) (path p : String) → append_to files path [] p ≡ files p
append_to-nil files path p = same (eq_text path p)
  where
    same : (b : Bool) → (if b then files p ++ [] else files p) ≡ files p
    same true = append-nil (files p)
    same false = refl

empty_text : (held : String) → (length held == 0) ≡ true → held ≡ []
empty_text [] h = refl
empty_text (c ∷ held) h = absurd (ground (arith, h))

module _ (path : String) (log : Log) (buffered : log.enablebufio ≡ true)
    (open_file : log.logfile ≡ some path) where
  put_lem : (text : String) → put log text ≡ (put_at log path text, true)
  put_lem text = ap (put_by log text) open_file

  -- The empty writer.
  passed : (text : String) → Took path log text (pass_on log (sound []) text)
  passed text =
      by_test (Took path log text) (leb (length text) 4096)
        (λ fits. record {
          pending = text;
          buffering = record { buffered = buffered; open_file = open_file; writer = refl };
          all = refl;
          same = λ p. refl;
          place = record { name = λ sys now. refl; limit = refl; size = refl };
        })
        (λ long. rw (open_file) record {
          pending = [];
          buffering = record { buffered = buffered; open_file = refl; writer = refl };
          all = refl;
          same = λ p.
              append_to-twice log.files path text [] p
              ∙ ap (λ held. append_to log.files path held p) (append-nil text);
          place = record { name = λ sys now. refl; limit = refl; size = refl };
        })

  flush_lem :
      (q : String) → (length q == 0) ≡ false → flush log (sound q) ≡ (put_at log path q, sound [])
  unfolding flush
  flush_lem q some_left = rw (flush, some_left, put_lem q) refl

-- A text that the writer has no room for: what it keeps is written with the first part of the text.
module _ (path pending text : String) (log : Log) (buffered : log.enablebufio ≡ true)
    (open_file : log.logfile ≡ some path) where
  abbrev room : ℕ
  room = 4096 - length pending

  abbrev first_part : String
  first_part = take room text

  after_first :
      (r : Log × Bool)
      → Took path (put_at log path (pending ++ first_part)) (drop room text) r
      → Took path log (pending ++ text) r
  after_first r t = record {
    pending = t.pending;
    buffering = t.buffering;
    all = t.all;
    place = record { name = t.place.name; limit = t.place.limit; size = t.place.size };
    same = λ p.
        let parts : (pending ++ first_part) ++ drop room text ≡ pending ++ text =
          append_assoc pending first_part (drop room text)
          ∙ ap (λ rest. pending ++ rest) (take-append-drop room text) in
        t.same p
        ∙ append_to-twice log.files path (pending ++ first_part) (drop room text) p
        ∙ ap (λ held. append_to log.files path held p) parts;
  }

  taken : Took path log (pending ++ text) (write_buffered log (sound pending) text)
  unfolding write_buffered
  taken =
      by_test (Took path log (pending ++ text)) (leb (length text) room)
        (λ fits. record {
          pending = pending ++ text;
          buffering = record { buffered = buffered; open_file = open_file; writer = refl };
          all = refl;
          same = λ p. refl;
          place = record { name = λ sys now. refl; limit = refl; size = refl };
        })
        (λ long.
          by_test (Took path log (pending ++ text)) (length pending == 0)
            (λ empty. rw (empty_text pending empty) (passed path log buffered open_file text))
            (λ some_left.
              let q = pending ++ first_part in
              let nonempty : (length q == 0) ≡ false =
                ground (arith, length-append pending first_part, some_left) in
              let written = put_at log path q in
              let flushed : after_flush (flush log (sound q)) (drop room text)
                  ≡ pass_on written (sound []) (drop room text) =
                ap (λ f. after_flush f (drop room text))
                  (flush_lem path log buffered open_file q nonempty) in
              after_first _ (
                subst⁻¹ (Took path written (drop room text)) flushed
                  (passed path written buffered open_file (drop room text)))))

module _ (path : String) where
  -- A write to a logger with a buffer.
  pub string_taken :
      (pending text : String) (log : Log)
      → IsBuffering path pending log
      → Took path log (pending ++ text) (write_string log text)
  unfolding write_string
  string_taken pending text log b =
      subst⁻¹ (Took path log (pending ++ text))
        (ap₂ (λ buffered writer. write_by log text buffered writer log.logfile) b.buffered b.writer)
        (taken path pending text log b.buffered b.open_file)

  -- What Save makes of a logger that keeps `pending` back.
  abbrev pub Saves : String → Log → Log → Type 0
  Saves pending log next =
      Took path log pending (next, true)
      × ((p : String) → next.files p ≡ append_to log.files path pending p)

  saved_by_length :
      (pending : String) (log : Log) (b : Bool)
      → IsBuffering path pending log
      → (length pending == 0) ≡ b
      → Saves pending log (flush_by log (some (sound pending)))
  unfolding flush
  saved_by_length pending log true b empty =
      let kept : flush log (sound pending) ≡ (log, sound pending) = rw (flush, empty) refl in
      let nothing : pending ≡ [] = empty_text pending empty in
      subst⁻¹ (λ f. Saves pending log (record f.0 { filewriter = some f.1 })) kept
        (
          record {
            pending = pending;
            buffering = record { buffered = b.buffered; open_file = b.open_file; writer = refl };
            all = refl;
            same = λ p. refl;
            place = record { name = λ sys now. refl; limit = refl; size = refl };
          },
          λ p.
              sym (append_to-nil log.files path p)
              ∙ ap (λ held. append_to log.files path held p) (sym nothing),
        )
  saved_by_length pending log false b some_left =
      subst⁻¹ (λ f. Saves pending log (record f.0 { filewriter = some f.1 }))
        (flush_lem path log b.buffered b.open_file pending some_left)
        (
          record {
            pending = [];
            buffering = record { buffered = b.buffered; open_file = b.open_file; writer = refl };
            all = refl;
            same = λ p. append_to-nil (append_to log.files path pending) path p;
            place = record { name = λ sys now. refl; limit = refl; size = refl };
          },
          λ p. refl,
        )

  pub saved :
      (pending : String) (log : Log)
      → IsBuffering path pending log
      → Saves pending log (sync_log_file log)
  unfolding sync_log_file flush_log
  saved pending log b =
      let flushed : sync_log_file log ≡ flush_by log (some (sound pending)) =
        ap₂ (λ buffered writer. if buffered then flush_by log writer else log) b.buffered
          b.writer in
      subst⁻¹ (Saves pending log) flushed (saved_by_length pending log (length pending == 0) b refl)

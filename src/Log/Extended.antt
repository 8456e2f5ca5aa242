-- ===== src/Log/Extended.antt =====
-- What the steps of checkFile and of the writer leave in the files.
use mathlib.Core.List.{append-nil, append_assoc}
use cc_be_chat_test.Common.{
  ℕ, ◌-◌, ◌≡◌, refl, ap, ◌∙◌, Bool, true, false, not, ◌&&◌, ◌||◌, Option, none, some, [], ◌++◌,
  length, take, drop, leb, ◌==◌, eq_text, if◌then◌else◌,
}
use cc_be_chat_test.Log.State.{
  put_by, flush_by, String, System, Writer, Log, append_to, put, flush, flush_log, pass_on,
  write_buffered,
}
use cc_be_chat_test.Log.Files.{
  new_file, close_file, replace_file, start_sync, check_file, now_log_dir, has_name, is_full,
  in_dir, renamed, numbered,
}

-- Every file holds what it held, and perhaps more behind it.
unfoldable pub IsExtended : Log → Log → Type 0
IsExtended log log' = (p : String) → (rest : String) × (log'.files p ≡ log.files p ++ rest)

module _ (log : Log) where
  pub same_files : (log' : Log) → log'.files ≡ log.files → IsExtended log log'
  unfolding IsExtended
  same_files log' e p = ([], rw (e, append-nil) refl)

  pub IsExtended-trans :
      (log' log'' : Log) → IsExtended log log' → IsExtended log' log'' → IsExtended log log''
  unfolding IsExtended
  IsExtended-trans log' log'' h h' p =
      let (first, e) = h p in
      let (second, e') = h' p in
      (first ++ second, e' ∙ ap (λ x. x ++ second) e ∙ append_assoc (log.files p) first second)

-- What holds on both branches holds of the conditional.
pub both : {A : Type 0} (P : A → Type 0) (b : Bool) {x y : A} → P x → P y → P (if b then x else y)
both P true hx hy = hx
both P false hx hy = hy

pub either :
    {A B : Type 0} (P : B → Type 0) (o : Option A) {x : B} {f : A → B}
    → P x
    → ((a : A) → P (f a))
    → P (elim o [ none ↦ x | some a ↦ f a ])
either P none hx hf = hx
either P (some a) hx hf = hf a

-- The state that a call with a result ends in.
pub IsExtendedBy : {B : Type 0} → Log → Log × B → Type 0
IsExtendedBy log r = IsExtended log r.0

pub ended : {B : Type 0} (log : Log) (r : Log × B) → IsExtended log r.0 → IsExtendedBy log r
unfolding IsExtendedBy
ended log r h = h

pub end_of : {B : Type 0} (log : Log) (r : Log × B) → IsExtendedBy log r → IsExtended log r.0
unfolding IsExtendedBy
end_of log r h = h

pub append_to-IsExtended :
    (log : Log) (path text p : String)
    → (rest : String) × (append_to log.files path text p ≡ log.files p ++ rest)
append_to-IsExtended log path text p =
    both (λ x. (rest : String) × (x ≡ log.files p ++ rest)) (eq_text path p) (text, refl)
      ([], rw (append-nil) refl)

pub put_by-IsExtended :
    (log : Log) (text : String) (file : Option String) → IsExtended log (put_by log text file).0
unfolding IsExtended
put_by-IsExtended log text none = same_files log log refl
put_by-IsExtended log text (some path) = append_to-IsExtended log path text

pub put-IsExtended : (log : Log) (text : String) → IsExtended log (put log text).0
put-IsExtended log text = put_by-IsExtended log text log.logfile

pub flush-IsExtended : (log : Log) (w : Writer) → IsExtendedBy log (flush log w)
unfolding flush
flush-IsExtended log w =
    both (IsExtendedBy log) (w.failed || (length w.pending == 0))
      (ended log _ (same_files log log refl))
      (both (IsExtendedBy log) (put log w.pending).1 (ended log _ (put-IsExtended log w.pending))
        (ended log _ (same_files log log refl)))

pub flush_by-IsExtended :
    (log : Log) (writer : Option Writer) → IsExtended log (flush_by log writer)
flush_by-IsExtended log none = same_files log log refl
flush_by-IsExtended log (some w) =
    IsExtended-trans log (flush log w).0 _ (end_of _ _ (flush-IsExtended log w))
      (same_files _ _ refl)

pub flush_log-IsExtended : (log : Log) → IsExtended log (flush_log log)
unfolding flush_log
flush_log-IsExtended log = flush_by-IsExtended log log.filewriter

pub pass_on-IsExtended :
    (log : Log) (w : Writer) (text : String) → IsExtendedBy log (pass_on log w text)
pass_on-IsExtended log w text =
    both (IsExtendedBy log) (leb (length text) 4096) (ended log _ (same_files log _ refl)) (
      both (IsExtendedBy log) (put log text).1
        (ended log _
          (IsExtended-trans log (put log text).0 _ (put-IsExtended log text) (same_files _ _ refl)))
        (ended log _ (same_files log _ refl)))

pub write_buffered-IsExtended :
    (log : Log) (w : Writer) (text : String) → IsExtendedBy log (write_buffered log w text)
unfolding write_buffered
write_buffered-IsExtended log w text =
    let available = 4096 - length w.pending in
    let filled : Writer = record w { pending = w.pending ++ take available text } in
    let flushed = flush log filled in
    both (IsExtendedBy log) w.failed (ended log _ (same_files log _ refl)) (
      both (IsExtendedBy log) (leb (length text) available) (ended log _ (same_files log _ refl)) (
        both (IsExtendedBy log) (length w.pending == 0) (pass_on-IsExtended log w text) (
          both (IsExtendedBy log) flushed.1.failed
            (ended log _ (
              IsExtended-trans log flushed.0 _ (end_of _ _ (flush-IsExtended log filled))
                (same_files _ _ refl)))
            (ended log _ (
              IsExtended-trans log flushed.0 _ (end_of _ _ (flush-IsExtended log filled))
                (end_of _ _ (pass_on-IsExtended flushed.0 flushed.1 (drop available text))))))))

pub new_file-IsExtended :
    (sys : System) (log : Log) (path : String) → IsExtendedBy log (new_file sys log path)
unfolding new_file
new_file-IsExtended sys log path =
    both (IsExtendedBy log) (not (sys.opens path)) (ended log _ (same_files log _ refl))
      (ended log _ (same_files log _ refl))

pub close_file-IsExtended : (log : Log) → IsExtended log (close_file log)
close_file-IsExtended log =
    both (IsExtended log) log.enablebufio
      (either (IsExtended log) log.filewriter (same_files log log refl) (λ w.
        IsExtended-trans log (flush_log log) _ (flush_log-IsExtended log) (same_files _ _ refl)))
      (same_files log _ refl)

pub replace_file-IsExtended : (sys : System) (log : Log) → IsExtendedBy log (replace_file sys log)
unfolding replace_file
replace_file-IsExtended sys log =
    let opened = new_file sys (close_file log) log.logfilename in
    let until_opened =
      IsExtended-trans log (close_file log) opened.0 (close_file-IsExtended log)
        (end_of _ _ (new_file-IsExtended sys (close_file log) log.logfilename)) in
    either (IsExtendedBy log) opened.1
      (ended log _ (IsExtended-trans log opened.0 _ until_opened (same_files _ _ refl)))
      (λ path. ended log _ (IsExtended-trans log opened.0 _ until_opened (same_files _ _ refl)))

pub start_sync-IsExtended :
    (log log' : Log) → IsExtended log log' → IsExtended log (start_sync log')
start_sync-IsExtended log log' h = IsExtended-trans log log' _ h (
    both (IsExtended log') (not log'.initsync && not log'.save_each) (same_files log' _ refl)
      (same_files log' log' refl))

pub check_file-IsExtended :
    (sys : System) (log : Log) (now newsize : ℕ) → IsExtendedBy log (check_file sys log now newsize)
unfolding check_file IsExtended
check_file-IsExtended sys log now newsize =
    let here = in_dir sys log now in
    let replaced = λ (next : Log) (e : next.files ≡ log.files).
      IsExtended-trans log next (replace_file sys next).0 (same_files log next e)
        (end_of next _ (replace_file-IsExtended sys next)) in
    let grown = replaced (numbered sys log now) refl in
    both (IsExtendedBy log) (not (sys.mkdir (now_log_dir sys log now)))
      (ended log _ (same_files log here refl))
      (both (IsExtendedBy log) (not (has_name sys log now))
        (ended log _ (replaced (renamed sys log now) refl))
        (both (IsExtendedBy log) (is_full log newsize)
          (both (IsExtendedBy log) (replace_file sys (numbered sys log now)).1
            (ended log _ (start_sync-IsExtended log _ grown)) (ended log _ grown))
          (ended log _ (start_sync-IsExtended log here (same_files log here refl)))))

-- ===== src/Delegate/Dispatch/Found.antt =====
-- What every handler in a table satisfies, the one that HandleMsg finds satisfies.
use cc_be_chat_test.Common.{
  ℕ, Bool, true, false, Bool-cases, inl, inr, Option, none, some, List, [], ◌∷◌, ◌==◌,
  if◌then◌else◌, Option-cases, ◌≡◌, refl, All, Outcome, ok, err, panic, ◌>>=◌,
}
use cc_be_chat_test.NetMsg.{NetMsg}
use cc_be_chat_test.NetMsg
use cc_be_chat_test.Delegate.Dispatch.{command, find, insert, handle, handle_msg}

module _ {H : Type 0} (P : H → Type 0) where
  -- An option that holds, at most, something with the property.
  abbrev pub Holds : Option H → Type 0
  Holds none = Unit {0}
  Holds (some cb) = P cb

  find-Holds :
      (handlers : List (ℕ × H)) (cmd : ℕ) → All (λ e. P e.1) handlers → Holds (find handlers cmd)
  unfolding find
  find-Holds [] cmd h = tt
  find-Holds ((key, cb) ∷ handlers) cmd h = elim (Bool-cases (key == cmd)) [
    | inl same ↦ rw (same) h.0
    | inr other ↦ rw (other) (find-Holds handlers cmd h.1)
  ]

  insert-All :
      (handlers : List (ℕ × H)) (cmd : ℕ) (cb : H)
      → All (λ e. P e.1) handlers
      → P cb
      → All (λ e. P e.1) (insert handlers cmd cb)
  unfolding insert
  insert-All [] cmd cb h p = (p, tt)
  insert-All ((key, old) ∷ handlers) cmd cb h p = elim (Bool-cases (key == cmd)) [
    | inl same ↦ rw (same) (p, h.1)
    | inr other ↦ rw (other) (h.0, insert-All handlers cmd cb h.1 p)
  ]

  pub handle-All :
      (handlers : List (ℕ × H)) (main sub : ℕ) (cb : H)
      → All (λ e. P e.1) handlers
      → P cb
      → All (λ e. P e.1) (handle handlers main sub cb)
  unfolding handle
  handle-All handlers main sub cb h p = insert-All handlers (command main sub) cb h p

  if-Holds : (running : Bool) (cb : H) → P cb → Holds (if running then some cb else none)
  if-Holds true cb p = p
  if-Holds false cb p = tt

  run-Holds :
      (o : Option H) (running : Bool)
      → Holds o
      → Holds
          (elim o as (λ x. Option H) [ none ↦ none | some cb ↦ if running then some cb else none ])
  run-Holds none running h = tt
  run-Holds (some cb) running h = if-Holds running cb h

  chosen-Holds :
      (handlers : List (ℕ × H)) (running : Bool) (chosen : Outcome (Unit {0}) ℕ)
      → All (λ e. P e.1) handlers
      → Holds (elim chosen as (λ x. Option H) [
        | ok cmd ↦ elim (find handlers cmd) [
          | none ↦ none
          | some cb ↦ elim (some running) [ none ↦ some cb | some r ↦ if r then some cb else none ]
        ]
        | err e ↦ none
        | panic ↦ none
      ])
  chosen-Holds handlers running (ok cmd) h =
      run-Holds (find handlers cmd) running (find-Holds handlers cmd h)
  chosen-Holds handlers running (err e) h = tt
  chosen-Holds handlers running panic h = tt

  pub handle_msg-Holds :
      (handlers : List (ℕ × H)) (running : Bool) (msg : NetMsg)
      → All (λ e. P e.1) handlers
      → Holds (handle_msg handlers (some running) msg)
  unfolding handle_msg
  handle_msg-Holds handlers running msg h =
      chosen-Holds handlers running
        (NetMsg.main_cmd msg >>= λ main. NetMsg.sub_cmd msg >>= λ sub. ok (command main sub)) h

-- The handler of a message with these commands, when the server runs.
pub handle_msg-find :
    {H : Type 0} (handlers : List (ℕ × H)) (msg : NetMsg) (main sub : ℕ)
    → NetMsg.main_cmd {E = Unit {0}} msg ≡ ok main
    → NetMsg.sub_cmd {E = Unit {0}} msg ≡ ok sub
    → handle_msg handlers (some true) msg ≡ find handlers (command main sub)
unfolding handle_msg
handle_msg-find handlers msg main sub m s = elim (Option-cases (find handlers (command main sub))) [
  | inl missing ↦ rw (handle_msg, m, s, missing) refl
  | inr (cb, e) ↦ rw (handle_msg, m, s, e) refl
]

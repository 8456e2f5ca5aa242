-- ===== src/History.antt =====
-- history.go: the chat lines that a new user gets. A string is opaque here; the mutex makes each
-- call one step.
use cc_be_chat_test.Common.{ℕ, ◌-◌, List, [], ◌∷◌, ◌++◌, length, take, drop, ltb, if◌then◌else◌}
pub mod Laws

abbrev pub history_record_count : ℕ
history_record_count = 50

module _ {Str : Type 0} where
  unfoldable pub new_history : List Str
  new_history = []

  unfoldable pub get_history : List Str → List Str
  get_history history = history

  -- `history[n-50 : n]` of the `n` lines, once there are more than 50.
  unfoldable pub add_history : List Str → Str → List Str
  add_history history str =
      let added = history ++ (str ∷ []) in
      let count = length added in
      if ltb history_record_count count
      then drop (count - history_record_count) (take count added)
      else added

  unfoldable pub add_all : List Str → List Str → List Str
  add_all history [] = history
  add_all history (str ∷ strs) = add_all (add_history history str) strs

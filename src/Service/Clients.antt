-- ===== src/Service/Clients.antt =====
-- Who is logged in, under which name.
use cc_be_chat_test.Common.{
  ℕ, ◌≡◌, ◌≢◌, ap, sym, ◌∙◌, Option, none, some, List, ◌==◌, ==_iff, eq_text, eq_text_iff,
}
use cc_be_chat_test.Common.Integers.{ℤ, pos, difference}
use cc_be_chat_test.Common.Maps.{
  lookup, insert, delete, lookup-insert, lookup-insert_other, lookup-delete, lookup-delete_other,
}
use cc_be_chat_test.Service.{User, TcpService, add_client, delete_client, get_login_time}

module _ (s : TcpService) (client : ℕ) (user : User)
    (known : lookup ◌==◌ s.clients client ≡ some user) where
  known_name : (delete_client s client).name_verb ≡ delete eq_text s.name_verb user.user_name
  unfolding delete_client
  known_name =
      ap
        (λ (o : Option User). elim o as (λ x. List (List ℕ × User)) [
          | some u ↦ delete eq_text s.name_verb u.user_name
          | none ↦ s.name_verb
        ])
        known

  known_time : (later : ℕ) → get_login_time s later client ≡ difference later user.login_time
  unfolding get_login_time
  known_time later =
      ap
        (λ (o : Option User). elim o as (λ x. ℤ) [
          | some u ↦ difference later u.login_time
          | none ↦ pos 0
        ])
        known

-- A client that logged in and has not left is known by its name, and its login time is the time
-- since then, negative if the clock was set back; the others are as they were; when it leaves,
-- neither it nor its name is known.
pub login_lem :
    (s : TcpService) (client other now later : ℕ) (user_name : List ℕ)
    → client ≢ other
    → (get_login_time (add_client s now client user_name) later client ≡ difference later now)
      × (lookup ◌==◌ (add_client s now client user_name).clients other
          ≡ lookup ◌==◌ s.clients other)
      × (lookup ◌==◌ (delete_client (add_client s now client user_name) client).clients client
          ≡ none)
      × (lookup eq_text
            (delete_client (add_client s now client user_name) client).name_verb
            user_name
          ≡ none)
unfolding add_client delete_client
login_lem s client other now later user_name ne =
    let user : User = record { user_name = user_name; login_time = now } in
    let known = lookup-insert ◌==◌ ==_iff s.clients client user in
    let added = add_client s now client user_name in
    (
      known_time added client user known later,
      lookup-insert_other ◌==◌ ==_iff s.clients client other user ne,
      lookup-delete ◌==◌ ==_iff (insert ◌==◌ s.clients client user) client,
      ap (λ m. lookup eq_text m user_name) (known_name added client user known)
          ∙ lookup-delete eq_text eq_text_iff (insert eq_text s.name_verb user_name user) user_name,
    )

-- Two clients may log in under one name. When the first of them leaves, the name is no longer
-- known, though the second is still logged in under it.
pub same_name_lost :
    (s : TcpService) (first second now later : ℕ) (user_name : List ℕ)
    → first ≢ second
    → let both = add_client (add_client s now first user_name) later second user_name in
      let left = delete_client both first in
      (lookup eq_text left.name_verb user_name ≡ none)
      × (lookup ◌==◌ left.clients second
          ≡ some (record { user_name = user_name; login_time = later }))
unfolding add_client delete_client
same_name_lost s first second now later user_name ne =
    let one : User = record { user_name = user_name; login_time = now } in
    let two : User = record { user_name = user_name; login_time = later } in
    let both = add_client (add_client s now first user_name) later second user_name in
    let clients = insert ◌==◌ s.clients first one in
    let known : lookup ◌==◌ both.clients first ≡ some one =
      lookup-insert_other ◌==◌ ==_iff clients second first two (λ e. ne (sym e))
      ∙ lookup-insert ◌==◌ ==_iff s.clients first one in
    (
      ap (λ m. lookup eq_text m user_name) (known_name both first one known)
          ∙ lookup-delete eq_text eq_text_iff both.name_verb user_name,
      lookup-delete_other ◌==◌ ==_iff both.clients first second ne
          ∙ lookup-insert ◌==◌ ==_iff clients second two,
    )

-- ===== src/Program.antt =====
-- main.go: what the test client sends, a message a second. `marshal_auth` and `marshal_chat` are
-- json.Marshal of an AuthReq and a ChatReq with a text; an error of theirs leaves the body empty.
use cc_be_chat_test.Common.{
  ℕ, zero, suc, ◌+◌, ◌≡◌, refl, ap, ◌∙◌, arith, Option, none, some, List, [], ◌∷◌, ◌==◌,
  if◌then◌else◌,
}
use cc_be_chat_test.TcpClient.Loops.Letters.{Letter}
use cc_be_chat_test.Service.{cmd_auth, cmd_chat}
use cc_be_chat_test.Service.Serving.{cmd_main}

-- "test1111", "1111111111", "/popular", "/stats  test1111" and "12344"
abbrev pub user_name : List ℕ
user_name = 116 ∷ 101 ∷ 115 ∷ 116 ∷ 49 ∷ 49 ∷ 49 ∷ 49 ∷ []

abbrev pub first_line : List ℕ
first_line = 49 ∷ 49 ∷ 49 ∷ 49 ∷ 49 ∷ 49 ∷ 49 ∷ 49 ∷ 49 ∷ 49 ∷ []

abbrev pub popular_line : List ℕ
popular_line = 47 ∷ 112 ∷ 111 ∷ 112 ∷ 117 ∷ 108 ∷ 97 ∷ 114 ∷ []

abbrev pub stats_line : List ℕ
stats_line = 47 ∷ 115 ∷ 116 ∷ 97 ∷ 116 ∷ 115 ∷ 32 ∷ 32 ∷ user_name

abbrev pub later_line : List ℕ
later_line = 49 ∷ 50 ∷ 51 ∷ 52 ∷ 52 ∷ []

-- The variables of the goroutine in `client`.
pub record Script : Type 0 where
  pub cmd : ℕ
  pub test_count : ℕ

unfoldable pub begin : Script
begin = record { cmd = cmd_auth; test_count = 0 }

-- The text of a chat round, and the count after it.
unfoldable pub chat_text : ℕ → List ℕ × ℕ
chat_text test_count =
    if test_count == 0
    then (first_line, 1)
    else if test_count == 1
    then (popular_line, 2)
    else if test_count == 2
    then (stats_line, 3)
    else (later_line, test_count)

module _ (marshal_auth marshal_chat : List ℕ → Option (List ℕ)) where
  abbrev pub body_of : Option (List ℕ) → List ℕ
  body_of none = []
  body_of (some str) = str

  -- A round of the loop: the message, if the command is one of the two, and the variables after it.
  unfoldable pub script_round : Script → Option Letter × Script
  script_round s =
      let login : Letter = record {
        main = cmd_main;
        sub = cmd_auth;
        content = body_of (marshal_auth user_name);
      } in
      let (msg_str, count) = chat_text s.test_count in
      let line : Letter = record {
        main = cmd_main;
        sub = cmd_chat;
        content = body_of (marshal_chat msg_str);
      } in
      if s.cmd == cmd_auth
      then (some login, record s { cmd = cmd_chat })
      else if s.cmd == cmd_chat
      then (some line, record s { test_count = count })
      else (none, s)

  -- The variables after so many rounds.
  unfoldable pub script_after : ℕ → Script
  script_after zero = begin
  script_after (suc n) = (script_round (script_after n)).1

  -- The message of a round; the first one is round 0.
  unfoldable pub script : ℕ → Option Letter
  script n = (script_round (script_after n)).0

  settled : (n : ℕ) → script_after (n + 4) ≡ record { cmd = cmd_chat; test_count = 3 }
  unfolding script_after script_round chat_text begin
  settled zero = refl
  settled (suc n) =
      let e : suc n + 4 ≡ suc (n + 4) = omega arith in
      ap script_after e ∙ ap (λ s. (script_round s).1) (settled n)

  abbrev chat_letter : List ℕ → Letter
  chat_letter txt = record { main = cmd_main; sub = cmd_chat; content = body_of (marshal_chat txt) }

  -- The first message is a login; then come a line, the two commands, and one line over and over.
  script_lem :
      (n : ℕ)
      → (script 0
          ≡ some (record {
            main = cmd_main;
            sub = cmd_auth;
            content = body_of (marshal_auth user_name);
          }))
        × (script 1 ≡ some (chat_letter first_line))
        × (script 2 ≡ some (chat_letter popular_line))
        × (script 3 ≡ some (chat_letter stats_line))
        × (script (n + 4) ≡ some (chat_letter later_line))
  unfolding script script_after script_round chat_text begin
  script_lem n = (refl, refl, refl, refl, ap (λ s. (script_round s).0) (settled n))

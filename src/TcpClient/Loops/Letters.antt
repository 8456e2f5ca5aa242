-- ===== src/TcpClient/Loops/Letters.antt =====
-- Messages by what they say: their commands and their body.
use cc_be_chat_test.Common.{
  ℕ, ◌≤◌, ◌<◌, some, List, [], ◌∷◌, length, IsByte, All, Outcome, ok, ◌>>=◌,
}
use cc_be_chat_test.Coder.Packet.{CoderError}
use cc_be_chat_test.Coder.Stamp.{stamp}
use cc_be_chat_test.NetMsg.Laws.{message}
use cc_be_chat_test.NetMsg.{NetMsg, bytes, new_net_msg, main_cmd, sub_cmd, body}
use cc_be_chat_test.TcpClient.Loops.{AsyncMsg, net_msg}

-- What a message is to say: two commands and a body.
pub record Letter : Type 0 where
  pub main : ℕ
  pub sub : ℕ
  pub content : List ℕ

abbrev pub IsLetter : Letter → Type 0
IsLetter l =
    (l.main < 65536) × ((l.sub < 65536) × ((length l.content ≤ 16376) × All IsByte l.content))

-- NewNetMsg of each, for the queue.
abbrev pub compose : List Letter → Outcome CoderError (List AsyncMsg)
compose [] = ok []
compose (l ∷ letters) = do
  msg ← new_net_msg l.main l.sub (some (bytes l.content))
  values ← compose letters
  ok (net_msg msg ∷ values)

-- MainCmd, SubCmd and Body of each.
abbrev pub opened : List NetMsg → Outcome CoderError (List Letter)
opened [] = ok []
opened (msg ∷ msgs) = do
  main ← main_cmd msg
  sub ← sub_cmd msg
  content ← body msg
  letters ← opened msgs
  ok (record { main = main; sub = sub; content = content } ∷ letters)

-- The message as it arrives: with its length, and a check code of its bytes.
abbrev pub as_received : Letter → NetMsg
as_received l = record { buf = stamp (message l.main l.sub l.content) }

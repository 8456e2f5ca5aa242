-- ===== src/TcpClient/Loops.antt =====
-- The two goroutines of a client in tcp/tcpclient.go: `reader`, which hands each message that RecvMsg
-- gives to HandleMsg, and `writer`, which sends each value that it takes from the queue. What the
-- network allows in a round is an argument; a handler sends by the queue, and so leaves the
-- connection to the two.
use cc_be_chat_test.Common.{ℕ, zero, suc, ◌+◌, Bool, Option, List, [], ◌∷◌, Outcome, ok, err, panic}
use cc_be_chat_test.NetMsg.{NetMsg, Coder}
use cc_be_chat_test.Delegate.{TcpClient, DelegateError, recv_msg, send_msg, send_data}
pub mod Ends
pub mod Letters
pub mod Delivers

-- How a reader ends: it stops the client, or RecvMsg panics, which `util.Go` recovers. A reader
-- that has used up its fuel is still reading.
pub data End : Type 0 where
  stopping : End
  panicked : End
  reading : End

-- What the queue holds: the writer sends a message or bytes, and only logs another value.
pub data AsyncMsg : Type 0 where
  net_msg : NetMsg → AsyncMsg
  data_msg : List ℕ → AsyncMsg
  invalid : AsyncMsg

module _ {E S : Type 0} (coder : Option (Coder E S)) (max_pack_len : ℕ) where
  abbrev pub Read : Type 0
  Read = List NetMsg × (TcpClient S × End)

  unfoldable pub read_on :
      TcpClient S × Outcome (DelegateError E) NetMsg → (TcpClient S → Read) → Read
  read_on (client, ok msg) rest = let after = rest client in (msg ∷ after.0, after.1)
  read_on (client, err e) rest = ([], (client, stopping))
  read_on (client, panic) rest = ([], (client, panicked))

  -- The messages that are handed to HandleMsg, the client when the reader ends, and how it ends.
  -- `deadlines` says for each round whether the two deadlines of RecvMsg can be set.
  unfoldable pub reader : (ℕ → Bool × Bool) → ℕ → ℕ → TcpClient S → Read
  reader deadlines zero round client = ([], (client, reading))
  reader deadlines (suc fuel) round client =
      read_on (recv_msg coder max_pack_len (deadlines round).0 (deadlines round).1 client)
        (reader deadlines fuel (round + 1))

  -- What a send returns, or that it panics, is ignored.
  unfoldable pub write_value : Bool → (List ℕ → ℕ × Bool) → AsyncMsg → TcpClient S → TcpClient S
  write_value deadline write (net_msg msg) client =
      (send_msg coder max_pack_len deadline write msg client).0
  write_value deadline write (data_msg bytes) client =
      (send_data coder max_pack_len deadline write bytes client).0
  write_value deadline write invalid client = client

  -- The writer, for the values that it takes until the queue is closed. `conn` says for each round
  -- whether the deadline can be set, and what the connection's Write does.
  unfoldable pub writer :
      (ℕ → Bool × (List ℕ → ℕ × Bool)) → ℕ → List AsyncMsg → TcpClient S → TcpClient S
  writer conn round [] client = client
  writer conn round (v ∷ values) client =
      writer conn (round + 1) values (write_value (conn round).0 (conn round).1 v client)

-- ===== src/Tests/Loops.antt =====
-- The reader and the writer on concrete connections.
use cc_be_chat_test.Common.{
  ℕ, ◌*◌, ◌≡◌, ◌≢◌, ◌≤◌, refl, Bool, true, Option, none, List, [], ◌∷◌, arith, length,
}
use cc_be_chat_test.Coder.InStep.{new-InStep}
use cc_be_chat_test.Coder.Client.{new_client_coder}
use cc_be_chat_test.Coder.Server.{new_server_coder}
use cc_be_chat_test.NetMsg.{Coder, pack_len, get_uint16}
use cc_be_chat_test.NetMsg
use cc_be_chat_test.Delegate.{
  TcpClient, recv_msg, recv_head, recv_body, recv_decrypt, recv_decrypted, read_full, add_read_len,
}
use cc_be_chat_test.TcpClient.Loops.{reader, reading, stopping, read_on}
use cc_be_chat_test.TcpClient.Loops.Ends.{reader_ends}
use cc_be_chat_test.TcpClient.Loops.Letters.{Letter}
use cc_be_chat_test.TcpClient.Loops.Delivers.{Delivered, writer-reader}

abbrev pub connected : {S : Type 0} → S → List ℕ → TcpClient S
connected s bytes = record {
  coder = s;
  incoming = bytes;
  outgoing = [];
  real_ip = none;
  read_len = 0;
  write_len = 0;
}

-- Two messages, the second with a body, and half of a third one's head.
abbrev arriving : TcpClient ℕ
arriving = connected 0 (
    0x89 ∷ 0 ∷ 8 ∷ 0 ∷ 1 ∷ 0 ∷ 1 ∷ 0 ∷ 0x89 ∷ 0 ∷ 9 ∷ 0 ∷ 1 ∷ 0 ∷ 3 ∷ 0 ∷ 42 ∷ 0x89 ∷ 0 ∷ 8 ∷ 0
    ∷ [])

abbrev no_coder : Option (Coder (Unit {0}) ℕ)
no_coder = none

abbrev on_time : ℕ → Bool × Bool
on_time round = (true, true)

two_read :
    (length (reader no_coder 4096 on_time 30 0 arriving).0 ≡ 2)
    × ((reader no_coder 4096 on_time 30 0 arriving).1.1 ≡ stopping)
unfolding reader read_on recv_msg recv_head recv_body recv_decrypt recv_decrypted read_full
    add_read_len pack_len get_uint16 NetMsg.decrypt
two_read = (refl, refl)

reader_ends_example :
    ((reader no_coder 4096 on_time 22 0 arriving).1.1 ≢ reading)
    × (reader no_coder 4096 on_time 30 0 arriving ≡ reader no_coder 4096 on_time 22 0 arriving)
    × (8 * length (reader no_coder 4096 on_time 22 0 arriving).0 ≤ length arriving.incoming)
reader_ends_example = reader_ends no_coder 4096 on_time 22 30 0 arriving (omega arith) (omega arith)

-- An echo, an empty body, and a chat line.
abbrev letters : List Letter
letters =
    record { main = 1; sub = 1; content = 104 ∷ 105 ∷ [] }
    ∷ record { main = 1; sub = 1; content = [] }
    ∷ record { main = 1; sub = 3; content = 97 ∷ 98 ∷ 99 ∷ 100 ∷ 101 ∷ [] }
    ∷ []

writer-reader_example :
    Delivered 7 (connected new_client_coder []) (connected new_server_coder []) letters 4 0 0
writer-reader_example =
    writer-reader 7 (connected new_client_coder []) (connected new_server_coder []) letters 4 0 0
      new-InStep (ground arith) (omega arith)

-- ===== src/Tests/Coding.antt =====
-- The coders, the messages and the delegate on concrete packets.
use cc_be_chat_test.Common.{
  ℕ, ◌+◌, ◌-◌, ◌/◌, ◌^◌, ◌≡◌, ◌≢◌, refl, true, none, some, List, [], ◌∷◌, ◌++◌, arith, u8, get_or,
  ok,
}
use cc_be_chat_test.Coder.Keys.{g_send_byte_map, g_recv_byte_map}
use cc_be_chat_test.Coder.Protocol.{next_key, g_dw_packet_key}
use cc_be_chat_test.Coder.Packet.{CoderError}
use cc_be_chat_test.Coder.Stamp.{IsPacket, stamp}
use cc_be_chat_test.Coder.InStep.{new-InStep}
use cc_be_chat_test.Coder.Buffers.{Opens, buffer-Opens}
use cc_be_chat_test.Coder.Client.{new_client_coder, first_key}
use cc_be_chat_test.Coder.Server.{new_server_coder}
use cc_be_chat_test.Coder.ByteMaps.{mapped_back}
use cc_be_chat_test.Coder.KeySchedule.{next_key-ne-zero}
use cc_be_chat_test.Coder.Client.FirstKey.{first_key-high}
use cc_be_chat_test.Coder.Session.{converse, up, down, converse_delivers}
use cc_be_chat_test.Coder.RoundTrip.{upstream, downstream}
use cc_be_chat_test.Coder.Upstream
use cc_be_chat_test.Coder.Downstream
use cc_be_chat_test.NetMsg.{
  NetMsg, Payload, bytes, new_net_msg, set_body, body, main_cmd, sub_cmd, version, pack_len,
}
use cc_be_chat_test.NetMsg
use cc_be_chat_test.Delegate.{TcpClient, recv_msg, recv_decrypt}
use cc_be_chat_test.Delegate.Framing.{recv_frame}
use cc_be_chat_test.Delegate.Exchange.{Arrived, message_arrives}
use cc_be_chat_test.Delegate.Crossing.{server_coder}

-- A packet with a body of three bytes, which the coders pad.
abbrev hello : List ℕ
hello = 0x89 ∷ 0 ∷ 19 ∷ 0 ∷ 1 ∷ 0 ∷ 3 ∷ 0 ∷ 104 ∷ 105 ∷ 33 ∷ []

hello-IsPacket : IsPacket hello
hello-IsPacket = record { bytes = ground arith; has_head = omega arith; fits = omega arith }

converse_delivers_example :
    converse new_client_coder new_server_coder (up 7 hello ∷ down hello ∷ up 9 hello ∷ [])
    ≡ ok (stamp hello ∷ stamp hello ∷ stamp hello ∷ [])
converse_delivers_example =
    converse_delivers (up 7 hello ∷ down hello ∷ up 9 hello ∷ []) (
      hello-IsPacket,
      omega arith,
      (hello-IsPacket, omega arith, (hello-IsPacket, omega arith, tt)),
    )

abbrev first_packet : Upstream.Delivered 7 new_client_coder new_server_coder hello (stamp hello)
first_packet = upstream 7 new_client_coder new_server_coder hello new-InStep hello-IsPacket

upstream_example : Upstream.Delivered 7 new_client_coder new_server_coder hello (stamp hello)
upstream_example = upstream 7 new_client_coder new_server_coder hello new-InStep hello-IsPacket

first_packet_counted : first_packet.cc'.dw_send_packet_count ≢ 0
unfolding new_client_coder
first_packet_counted e = omega (arith, first_packet.counted, e)

downstream_example : Downstream.Delivered first_packet.sc' first_packet.cc' hello (stamp hello)
downstream_example =
    downstream first_packet.sc' first_packet.cc' hello first_packet.in_step first_packet_counted
      hello-IsPacket

buffer-Opens_example : Opens 0x89 0 19 0 (1 ∷ 0 ∷ 3 ∷ 0 ∷ 104 ∷ 105 ∷ 33 ∷ []) 0x1FBFEF1F
buffer-Opens_example =
    buffer-Opens 0x89 0 19 0 (1 ∷ 0 ∷ 3 ∷ 0 ∷ 104 ∷ 105 ∷ 33 ∷ []) (omega arith) 0x1FBFEF1F
      (ground arith) (omega arith)

next_key-ne-zero_example : next_key 0x12 0x34 0x56 0x78 ≢ 0
next_key-ne-zero_example = next_key-ne-zero 0x12 0x34 0x56 0x78 (omega arith) (omega arith)

first_key-high_example : first_key 123456789 / 2 ^ 16 ≡ g_dw_packet_key / 2 ^ 16
first_key-high_example = first_key-high 123456789

mapped_back_example :
    u8 (get_or g_recv_byte_map (get_or g_send_byte_map (u8 (200 + 99)) 0) 0 + 256 - 99) ≡ 200
mapped_back_example = mapped_back 200 99 (omega arith) (omega arith)

abbrev text_hi : Payload
text_hi = bytes (104 ∷ 105 ∷ [])

abbrev fresh : {S : Type 0} → S → TcpClient S
fresh s = record {
  coder = s;
  incoming = [];
  outgoing = [];
  real_ip = none;
  read_len = 0;
  write_len = 0;
}

recv_frame_example :
    recv_msg (some server_coder) 4096 true true (record (fresh new_server_coder) {
      incoming = (0x89 ∷ 0 ∷ 9 ∷ 0 ∷ 1 ∷ 0 ∷ 3 ∷ 0 ∷ 42 ∷ []) ++ (1 ∷ 2 ∷ []);
    })
    ≡ recv_decrypt
        (some server_coder)
        4096
        (0x89 ∷ 0 ∷ 9 ∷ 0 ∷ 1 ∷ 0 ∷ 3 ∷ 0 ∷ 42 ∷ [])
        (record (fresh new_server_coder) { incoming = 1 ∷ 2 ∷ []; read_len = 0 + 4 + (9 - 8) })
recv_frame_example =
    recv_frame (some server_coder) 4096 (fresh new_server_coder)
      (0x89 ∷ 0 ∷ 9 ∷ 0 ∷ 1 ∷ 0 ∷ 3 ∷ 0 ∷ 42 ∷ []) (1 ∷ 2 ∷ [])
      (record { head = refl; size = refl; has_head = omega arith; fits = omega arith })
      (omega arith)

abbrev handlers : List (ℕ × ℕ)
handlers = (65537, 100) ∷ []

message_arrives_example :
    (msg : NetMsg) × (new_net_msg {E = CoderError} 1 3 (some text_hi) ≡ ok msg)
    × Arrived 7 (fresh new_client_coder) (fresh new_server_coder) 1 3 (104 ∷ 105 ∷ []) (5 ∷ []) msg
unfolding NetMsg.data_to_buf
message_arrives_example =
    message_arrives 7 (fresh new_client_coder) (fresh new_server_coder) 1 3 text_hi (104 ∷ 105 ∷ [])
      (5 ∷ []) new-InStep (omega arith) (omega arith) refl (omega arith) (ground arith)

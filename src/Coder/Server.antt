-- ===== src/Coder/Server.antt =====
-- coder/ServerCoder.go. A method returns the coder that it leaves behind and how it ends. The server
-- takes its keys from the first packet that it receives.
pub mod Shape
use cc_be_chat_test.Common.{ℕ, ◌+◌, ◌-◌, List, ◌++◌}
use cc_be_chat_test.Common.{u8, u16, u32, length, take, drop, set, get_or, ltb, ◌==◌, if◌then◌else◌}
use cc_be_chat_test.Common.{Outcome, ok, err, panic, ◌>>=◌}
use cc_be_chat_test.Coder.Keys.{g_send_byte_map, g_recv_byte_map}
use cc_be_chat_test.Coder.Protocol.{Keyed, size_of_cmd_info, size_of_cmd_head}
use cc_be_chat_test.Coder.Packet.{
  CoderError, too_short, too_long, null_key, size_mismatch, check_code_failed,
}
use cc_be_chat_test.Coder.Packet.{
  socket_packet, slice, read_uint16, write_uint16, extract_key, encrypt_buffer, decrypt_buffer,
}
use cc_be_chat_test.Coder.Loops.{send_loop, recv_loop}

pub record ServerCoder : Type 0 where
  pub cb_send_round : ℕ
  pub cb_recv_round : ℕ
  pub dw_send_xor_key : ℕ
  pub dw_recv_xor_key : ℕ
  pub dw_send_packet_count : ℕ
  pub dw_recv_packet_count : ℕ

unfoldable pub new_server_coder : ServerCoder
new_server_coder = record {
  cb_send_round = 0;
  cb_recv_round = 0;
  dw_send_xor_key = 0;
  dw_recv_xor_key = 0;
  dw_send_packet_count = 0;
  dw_recv_packet_count = 0;
}

unfoldable pub map_send_byte : ServerCoder → ℕ → ℕ × ServerCoder
map_send_byte sc cb = (
  get_or g_send_byte_map (u8 (cb + sc.cb_send_round)) 0,
  record sc { cb_send_round = u8 (sc.cb_send_round + 3) },
)

unfoldable pub map_recv_byte : ServerCoder → ℕ → ℕ × ServerCoder
map_recv_byte sc cb = (
  u8 (get_or g_recv_byte_map cb 0 + 256 - sc.cb_recv_round),
  record sc { cb_recv_round = u8 (sc.cb_recv_round + 3) },
)

unfoldable pub finish_encrypt :
    ServerCoder → Outcome CoderError Keyed → ServerCoder × Outcome CoderError (List ℕ)
finish_encrypt sc (ok (encoded, new_key)) = (
  record sc { dw_send_packet_count = u32 (sc.dw_send_packet_count + 1); dw_send_xor_key = new_key },
  ok encoded,
)
finish_encrypt sc (err e) = (sc, err e)
finish_encrypt sc panic = (sc, panic)

-- `cbDataBuffer` with the mapped body, the check code and the size in it.
unfoldable pub fill : List ℕ → ℕ → List ℕ → ℕ → List ℕ
fill buffer size body check =
    let mapped = take size_of_cmd_info buffer ++ (body ++ drop size buffer) in
    write_uint16 (set mapped 1 (u8 (255 - check + 1))) 2 size

unfoldable pub encrypt : ServerCoder → List ℕ → ServerCoder × Outcome CoderError (List ℕ)
encrypt sc buffer =
    let size = u16 (length buffer) in
    if ltb size size_of_cmd_head
    then (sc, err too_short)
    else if ltb (size_of_cmd_head + socket_packet) size
    then (sc, err too_long)
    else if sc.dw_send_xor_key == 0
    then (sc, err null_key)
    else let plain = drop size_of_cmd_info (take size buffer) in
      let (body, check, mapped) = send_loop map_send_byte sc 0 plain in
      finish_encrypt mapped (encrypt_buffer (fill buffer size body check) mapped.dw_send_xor_key)

-- The end of Decrypt: the body is mapped back and its check code compared.
unfoldable pub finish_decrypt :
    ServerCoder → Outcome CoderError Keyed → ServerCoder × Outcome CoderError (List ℕ)
finish_decrypt sc (ok (decoded, new_key)) =
    let (body, check, mapped) =
      recv_loop map_recv_byte sc (get_or decoded 1 0) (drop size_of_cmd_info decoded) in
    if check == 0
    then (
      record mapped {
        dw_recv_packet_count = u32 (mapped.dw_recv_packet_count + 1);
        dw_recv_xor_key = new_key;
      },
      ok (take size_of_cmd_info decoded ++ body),
    )
    else (mapped, err check_code_failed)
finish_decrypt sc (err e) = (sc, err e)
finish_decrypt sc panic = (sc, panic)

-- The first packet brings the key of both directions.
unfoldable pub accept_key : ServerCoder → List ℕ → ServerCoder × Outcome CoderError (List ℕ)
accept_key sc buffer =
    if sc.dw_recv_packet_count == 0
    then elim (extract_key buffer size_of_cmd_head) [
      | ok (shorter, key) ↦ (record sc { dw_recv_xor_key = key; dw_send_xor_key = key }, ok shorter)
      | err e ↦ (sc, err e)
      | panic ↦ (sc, panic)
    ]
    else (sc, ok buffer)

unfoldable pub decrypt : ServerCoder → List ℕ → ServerCoder × Outcome CoderError (List ℕ)
decrypt sc buffer =
    let size = u16 (length buffer) in
    if ltb size size_of_cmd_head
    then (sc, err too_short)
    else elim (slice buffer 2 4 >>= read_uint16) [
      | ok packet_size ↦
          if packet_size == size
          then (let (keyed, accepted) = accept_key sc buffer in
              finish_decrypt keyed (accepted >>= λ b. decrypt_buffer b keyed.dw_recv_xor_key))
          else (sc, err size_mismatch)
      | err e ↦ (sc, err e)
      | panic ↦ (sc, panic)
    ]

-- ===== src/Coder/Client.antt =====
-- coder/ClientCoder.go. A method returns the coder that it leaves behind and how it ends; the
-- random number of the first packet is an argument.
pub mod Shape
pub mod FirstKey
use cc_be_chat_test.Common.{ℕ, ◌+◌, ◌-◌, ◌*◌, ◌/◌, ◌^◌, List, ◌++◌, bit_or, bit_xor}
use cc_be_chat_test.Common.{u8, u16, u32, length, take, drop, set, get_or, ltb, ◌==◌, if◌then◌else◌}
use cc_be_chat_test.Common.{Outcome, ok, err, panic, ◌>>=◌}
use cc_be_chat_test.Coder.Keys.{g_send_byte_map, g_recv_byte_map}
use cc_be_chat_test.Coder.Protocol.{
  Keyed, g_dw_packet_key, size_of_cmd_info, size_of_cmd_head, seed_rand_map,
}
use cc_be_chat_test.Coder.Packet.{
  CoderError, too_short, too_long, nothing_sent, size_mismatch, check_code_failed,
}
use cc_be_chat_test.Coder.Packet.{
  socket_packet, slice, read_uint16, write_uint16, insert_key, encrypt_buffer, decrypt_buffer,
}
use cc_be_chat_test.Coder.Loops.{send_loop, recv_loop}

pub record ClientCoder : Type 0 where
  pub cb_send_round : ℕ
  pub cb_recv_round : ℕ
  pub dw_send_xor_key : ℕ
  pub dw_recv_xor_key : ℕ
  pub dw_send_packet_count : ℕ
  pub dw_recv_packet_count : ℕ

unfoldable pub new_client_coder : ClientCoder
new_client_coder = record {
  cb_send_round = 0;
  cb_recv_round = 0;
  dw_send_xor_key = 0;
  dw_recv_xor_key = 0;
  dw_send_packet_count = 0;
  dw_recv_packet_count = 0;
}

unfoldable pub map_send_byte : ClientCoder → ℕ → ℕ × ClientCoder
map_send_byte cc cb = (
  get_or g_send_byte_map (u8 (cb + cc.cb_send_round)) 0,
  record cc { cb_send_round = u8 (cc.cb_send_round + 3) },
)

unfoldable pub map_recv_byte : ClientCoder → ℕ → ℕ × ClientCoder
map_recv_byte cc cb = (
  u8 (get_or g_recv_byte_map cb 0 + 256 - cc.cb_recv_round),
  record cc { cb_recv_round = u8 (cc.cb_recv_round + 3) },
)

-- The key of the first packet. In `uint32(SeedRandMap(...)<<16)` the shift is made on a uint16.
unfoldable pub first_key : ℕ → ℕ
first_key random =
    let low = seed_rand_map (u16 random) in
    let high = u16 (seed_rand_map (u16 (low / 2 ^ 16)) * 2 ^ 16) in
    bit_xor (bit_or low high) g_dw_packet_key

unfoldable pub choose_key : ℕ → ClientCoder → ClientCoder
choose_key random cc =
    if cc.dw_send_packet_count == 0
    then record cc { dw_send_xor_key = first_key random; dw_recv_xor_key = first_key random }
    else cc

-- The end of Encrypt: the key goes into the first packet, and the state is moved on.
unfoldable pub finish_encrypt :
    ClientCoder → Outcome CoderError Keyed → ClientCoder × Outcome CoderError (List ℕ)
finish_encrypt cc (ok (encoded, new_key)) =
    let done = record cc {
      dw_send_packet_count = u32 (cc.dw_send_packet_count + 1);
      dw_send_xor_key = new_key;
    } in
    if cc.dw_send_packet_count == 0
    then elim (insert_key encoded cc.dw_send_xor_key size_of_cmd_head) [
      | ok keyed ↦ (done, ok keyed)
      | err e ↦ (cc, err e)
      | panic ↦ (cc, panic)
    ]
    else (done, ok encoded)
finish_encrypt cc (err e) = (cc, err e)
finish_encrypt cc panic = (cc, panic)

-- `cbDataBuffer` with the mapped body, the check code and the size in it.
unfoldable pub fill : List ℕ → ℕ → List ℕ → ℕ → List ℕ
fill buffer size body check =
    let mapped = take size_of_cmd_info buffer ++ (body ++ drop size buffer) in
    write_uint16 (set mapped 1 (u8 (255 - check + 1))) 2 size

unfoldable pub encrypt : ℕ → ClientCoder → List ℕ → ClientCoder × Outcome CoderError (List ℕ)
encrypt random cc buffer =
    let size = u16 (length buffer) in
    if ltb size size_of_cmd_head
    then (cc, err too_short)
    else if ltb (size_of_cmd_head + socket_packet) size
    then (cc, err too_long)
    else let plain = drop size_of_cmd_info (take size buffer) in
      let (body, check, mapped) = send_loop map_send_byte cc 0 plain in
      let keyed = choose_key random mapped in
      finish_encrypt keyed (encrypt_buffer (fill buffer size body check) keyed.dw_send_xor_key)

-- The end of Decrypt: the body is mapped back and its check code compared.
unfoldable pub finish_decrypt :
    ClientCoder → Outcome CoderError Keyed → ClientCoder × Outcome CoderError (List ℕ)
finish_decrypt cc (ok (decoded, new_key)) =
    let (body, check, mapped) =
      recv_loop map_recv_byte cc (get_or decoded 1 0) (drop size_of_cmd_info decoded) in
    if check == 0
    then (
      record mapped {
        dw_recv_packet_count = u32 (mapped.dw_recv_packet_count + 1);
        dw_recv_xor_key = new_key;
      },
      ok (take size_of_cmd_info decoded ++ body),
    )
    else (mapped, err check_code_failed)
finish_decrypt cc (err e) = (cc, err e)
finish_decrypt cc panic = (cc, panic)

unfoldable pub decrypt : ClientCoder → List ℕ → ClientCoder × Outcome CoderError (List ℕ)
decrypt cc buffer =
    let size = u16 (length buffer) in
    if cc.dw_send_packet_count == 0
    then (cc, err nothing_sent)
    else if ltb size size_of_cmd_head
    then (cc, err too_short)
    else elim (slice buffer 2 4 >>= read_uint16) [
      | ok packet_size ↦
          if packet_size == size
          then finish_decrypt cc (decrypt_buffer buffer cc.dw_recv_xor_key)
          else (cc, err size_mismatch)
      | err e ↦ (cc, err e)
      | panic ↦ (cc, panic)
    ]

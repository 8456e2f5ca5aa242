-- ===== src/Coder/Packet.antt =====
-- coder/utils.go, with coder/protocol.go and constants of coder/const.go: little-endian fields, the
-- session key in a packet, and the padding round the two loops.
use cc_be_chat_test.Common.{ℕ, ◌+◌, ◌-◌, ◌%◌, ◌^◌, List, [], ◌∷◌, ◌++◌}
use cc_be_chat_test.Common.{
  u16, le16, le32, byte0, byte1, byte2, byte3, length, take, drop, copy_at, replicate, leb, ltb,
  ◌==◌, if◌then◌else◌,
}
use cc_be_chat_test.Common.{Outcome, ok, err, panic, or_panic, ◌>>=◌}
use cc_be_chat_test.Coder.Protocol.{Keyed, size_of_cmd_info, c_encrypt_buffer, c_decrypt_buffer}

pub data CoderError : Type 0 where
  too_short too_long null_key buffer_too_small unexpected_eof nothing_sent : CoderError
  size_mismatch check_code_failed : CoderError

abbrev pub dword_len : ℕ
dword_len = 4

abbrev pub socket_packet : ℕ
socket_packet = 16376

-- `buffer[lo:hi]`
unfoldable pub slice : List ℕ → ℕ → ℕ → Outcome CoderError (List ℕ)
slice buffer lo hi = if leb hi (length buffer) then ok (take (hi - lo) (drop lo buffer)) else panic

unfoldable pub read_uint16 : List ℕ → Outcome CoderError ℕ
read_uint16 (b0 ∷ b1 ∷ bs) = ok (le16 b0 b1)
read_uint16 _ = err unexpected_eof

unfoldable pub read_uint32 : List ℕ → Outcome CoderError ℕ
read_uint32 (b0 ∷ b1 ∷ b2 ∷ b3 ∷ bs) = ok (le32 b0 b1 b2 b3)
read_uint32 _ = err unexpected_eof

-- What `binary.Write` appends for a uint16 and a uint32.
abbrev pub bytes16 : ℕ → List ℕ
bytes16 val = byte0 val ∷ byte1 val ∷ []

abbrev pub bytes32 : ℕ → List ℕ
bytes32 val = byte0 val ∷ byte1 val ∷ byte2 val ∷ byte3 val ∷ []

-- `WriteUint16(buffer[at:at+2], val)`: the reset buffer is the slice itself, which is written over.
unfoldable pub write_uint16 : List ℕ → ℕ → ℕ → List ℕ
write_uint16 buffer at val = copy_at at buffer (bytes16 val)

unfoldable pub insert_key : List ℕ → ℕ → ℕ → Outcome CoderError (List ℕ)
unfolding slice read_uint16
insert_key buffer send_key head_len =
    if ltb (length buffer) head_len then err buffer_too_small else do
      field ← slice buffer 2 4
      packet_size ← read_uint16 field
      start ← slice buffer 0 2
      head ← slice buffer 4 head_len
      ok (
          start
          ++ (bytes16 (u16 (packet_size + dword_len))
              ++ (head ++ (bytes32 send_key ++ drop head_len buffer))))

unfoldable pub extract_key : List ℕ → ℕ → Outcome CoderError (List ℕ × ℕ)
unfolding slice read_uint16 read_uint32
extract_key buffer head_len =
    if ltb (length buffer) (u16 (head_len + dword_len)) then err buffer_too_small else do
      key_field ← slice buffer head_len (head_len + dword_len)
      recv_key ← read_uint32 key_field
      field ← slice buffer 2 4
      packet_size ← read_uint16 field
      start ← slice buffer 0 2
      head ← slice buffer 4 head_len
      ok (
        start
            ++ (bytes16 (u16 (packet_size + 2 ^ 16 - dword_len))
                ++ (head ++ drop (head_len + dword_len) buffer)),
        recv_key,
      )

-- The size behind the info bytes, and the zeros that fill its last word.
unfoldable pub encrypt_size : ℕ → ℕ
encrypt_size size = u16 (size + 2 ^ 16 - size_of_cmd_info)

unfoldable pub snap_count : ℕ → ℕ
snap_count n = if n % dword_len == 0 then 0 else dword_len - n % dword_len

abbrev pub padded : List ℕ → ℕ → List ℕ
padded buffer size = buffer ++ replicate (snap_count (encrypt_size size)) 0

abbrev pub cut : ℕ → Keyed → Keyed
cut size (buffer, key) = (take size buffer, key)

unfoldable pub encrypt_buffer : List ℕ → ℕ → Outcome CoderError Keyed
unfolding c_encrypt_buffer
encrypt_buffer buffer key =
    let size = u16 (length buffer) in
    let n = encrypt_size size in
    do
      done ← or_panic (c_encrypt_buffer (padded buffer size) key n (snap_count n))
      ok (cut size done)

unfoldable pub decrypt_buffer : List ℕ → ℕ → Outcome CoderError Keyed
unfolding c_decrypt_buffer
decrypt_buffer buffer key =
    let size = u16 (length buffer) in
    let n = encrypt_size size in
    do
      done ← or_panic (c_decrypt_buffer (padded buffer size) key n (snap_count n) size)
      ok (cut size done)

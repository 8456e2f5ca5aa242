-- ===== src/NetMsg.antt =====
-- tcp/netmsg.go, with DataToBuf of util/type.go and the constants of tcp/defautconf.go: a message
-- is its buffer, eight bytes of head and the body. `panic` is an index past the buffer.
pub mod Laws
use mathlib.Core.Option
use cc_be_chat_test.Common.{
  ℕ, ◌+◌, ◌-◌, Option, none, some, List, [], ◌∷◌, ◌++◌, u16, le16, byte0, byte1, length, take, drop,
  set, get_elem?, copy_at, replicate, ltb, leb, ◌==◌, if◌then◌else◌,
}
use cc_be_chat_test.Common.{Outcome, ok, err, panic, or_panic, ◌>>=◌}

abbrev pub default_pack_head_len : ℕ
default_pack_head_len = 8

abbrev pub default_max_body_len : ℕ
default_max_body_len = 16384 - 8

abbrev pub socket_ver : ℕ
socket_ver = 0x89

-- The interface Coder of tcp/tcpclient.go, for a coder with the state `S` and the errors `E`.
pub record Coder (E S : Type 0) : Type 0 where
  pub encrypt : S → List ℕ → S × Outcome E (List ℕ)
  pub decrypt : S → List ℕ → S × Outcome E (List ℕ)

pub record NetMsg : Type 0 where
  pub buf : List ℕ

unfoldable pub clone : NetMsg → NetMsg
clone msg = record { buf = [] ++ msg.buf }

module _ {E : Type 0} where
  -- `binary.LittleEndian.Uint16(buf[at:])` and `PutUint16(buf[at:], val)`.
  unfoldable pub get_uint16 : ℕ → List ℕ → Outcome E ℕ
  get_uint16 at buf = do
    b0 ← or_panic (get_elem? buf at)
    b1 ← or_panic (get_elem? buf (at + 1))
    ok (le16 b0 b1)

  unfoldable pub put_uint16 : ℕ → List ℕ → ℕ → Outcome E (List ℕ)
  put_uint16 at buf val =
      if ltb (length buf) (at + 2) then panic else ok (copy_at at buf (byte0 val ∷ byte1 val ∷ []))

  unfoldable pub version : NetMsg → Outcome E ℕ
  version msg = or_panic (get_elem? msg.buf 0)

  unfoldable pub set_version : NetMsg → ℕ → Outcome E NetMsg
  set_version msg v = if length msg.buf == 0 then panic else ok (record { buf = set msg.buf 0 v })

  unfoldable pub check_code : NetMsg → Outcome E ℕ
  check_code msg = or_panic (get_elem? msg.buf 1)

  unfoldable pub set_check_code : NetMsg → ℕ → Outcome E NetMsg
  set_check_code msg code =
      if ltb (length msg.buf) 2 then panic else ok (record { buf = set msg.buf 1 code })

  unfoldable pub pack_len : NetMsg → Outcome E ℕ
  unfolding get_uint16
  pack_len msg = get_uint16 2 msg.buf

  unfoldable pub set_pack_len : NetMsg → ℕ → Outcome E NetMsg
  unfolding put_uint16
  set_pack_len msg len = do b ← put_uint16 2 msg.buf len; ok (record { buf = b })

  unfoldable pub main_cmd : NetMsg → Outcome E ℕ
  unfolding get_uint16
  main_cmd msg = get_uint16 4 msg.buf

  unfoldable pub set_main_cmd : NetMsg → ℕ → Outcome E NetMsg
  unfolding put_uint16
  set_main_cmd msg cmd = do b ← put_uint16 4 msg.buf cmd; ok (record { buf = b })

  unfoldable pub sub_cmd : NetMsg → Outcome E ℕ
  unfolding get_uint16
  sub_cmd msg = get_uint16 6 msg.buf

  unfoldable pub set_sub_cmd : NetMsg → ℕ → Outcome E NetMsg
  unfolding put_uint16
  set_sub_cmd msg cmd = do b ← put_uint16 6 msg.buf cmd; ok (record { buf = b })

  -- `buf[8:]`, also what BodyLen measures.
  unfoldable pub body : NetMsg → Outcome E (List ℕ)
  body msg =
      if ltb (length msg.buf) default_pack_head_len
      then panic
      else ok (drop default_pack_head_len msg.buf)

  unfoldable pub body_len : NetMsg → Outcome E ℕ
  unfolding body
  body_len msg = do b ← body msg; ok (length b)

unfoldable pub total_len : NetMsg → ℕ
total_len msg = length msg.buf

-- The buffer is made longer or shorter, to fit the new body, which is then copied in.
unfoldable pub set_body : NetMsg → List ℕ → NetMsg
set_body msg content =
    let need = length content + default_pack_head_len in
    let have = length msg.buf in
    let fitted =
      if ltb have need then msg.buf ++ replicate (need - have) 0 else take need msg.buf in
    record { buf = copy_at default_pack_head_len fitted content }

-- What a message is made of: bytes, a text, or a value of another type, which a JSON library
-- encodes (`none` is its error).
pub data Payload : Type 0 where
  bytes : List ℕ → Payload
  text : List ℕ → Payload
  value : Option (List ℕ) → Payload

unfoldable pub data_to_buf : Payload → Option (List ℕ)
data_to_buf (bytes buf) = some buf
data_to_buf (text str) = some str
data_to_buf (value json) = json

-- The buffer before its head is filled in, from the bytes if there are any: a body that is too
-- long is dropped.
unfoldable pub new_buf : Option (List ℕ) → List ℕ
new_buf none = replicate default_pack_head_len 0
new_buf (some buf) =
    if leb (length buf) default_max_body_len
    then replicate default_pack_head_len 0 ++ buf
    else replicate default_pack_head_len 0

unfoldable pub new_net_msg : {E : Type 0} → ℕ → ℕ → Option Payload → Outcome E NetMsg
unfolding new_buf data_to_buf set_pack_len set_main_cmd set_sub_cmd
new_net_msg main sub payload =
    let buf = new_buf (Option.bind payload data_to_buf) in
    do
      versioned ← set_version (record { buf = buf }) socket_ver
      sized ← set_pack_len versioned (u16 (length versioned.buf + default_pack_head_len))
      commanded ← set_main_cmd sized main
      set_sub_cmd commanded sub

module _ {E S : Type 0} (coder : Option (Coder E S)) where
  -- The coder works on a copy. If it refuses the message, the plain buffer is returned.
  unfoldable pub encrypt : S → NetMsg → S × Outcome E (List ℕ)
  encrypt s msg = elim coder [
    | none ↦ (s, ok msg.buf)
    | some c ↦
        let (s', sent) = c.encrypt s ([] ++ msg.buf) in
        (s', elim sent [ ok encrypted ↦ ok encrypted | err e ↦ ok msg.buf | panic ↦ panic ])
  ]

  unfoldable pub decrypt : S → NetMsg → S × Outcome E NetMsg
  decrypt s msg = elim coder [
    | none ↦ (s, ok msg)
    | some c ↦
        let (s', got) = c.decrypt s msg.buf in
        (s', got >>= λ decrypted. ok (record { buf = decrypted }))
  ]

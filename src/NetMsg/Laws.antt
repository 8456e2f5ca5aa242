-- ===== src/NetMsg/Laws.antt =====
-- What NewNetMsg puts into a message, and what SetBody changes.
use mathlib.Core.Option
use cc_be_chat_test.Common.{
  ℕ, zero, suc, ◌+◌, ◌-◌, ◌≤◌, ◌<◌, ◌≡◌, refl, ◌∙◌, ap, some, List, [], ◌∷◌, ◌++◌, true, false,
  arith, u16, le16, byte0, byte1, length, take, drop, leb, ltb, ok, if◌then◌else◌, IsByte, All,
  replicate, copy_at, copy, Bool-cases, ltb→lt, inl, inr, length-append, length-replicate,
  length-take, length-drop, ◌==◌, copy-nil,
}
use cc_be_chat_test.Coder.Stamp.{IsPacket}
use cc_be_chat_test.NetMsg.{
  NetMsg, Payload, data_to_buf, new_buf, new_net_msg, main_cmd, sub_cmd, body, version, pack_len,
  get_uint16, set_version, set_pack_len, set_main_cmd, set_sub_cmd, set_body, put_uint16,
}

-- The buffer of a new message with the body `content`.
abbrev pub message : ℕ → ℕ → List ℕ → List ℕ
message main sub content =
    let n = length content + 16 in
    0x89 ∷ 0 ∷ byte0 n ∷ byte1 n ∷ byte0 main ∷ byte1 main ∷ byte0 sub ∷ byte1 sub ∷ content

module _ {E : Type 0} (main sub : ℕ) (content : List ℕ) (fits : length content ≤ 16376) where
  pub new_net_msg_buf :
      (payload : Payload)
      → data_to_buf payload ≡ some content
      → new_net_msg {E = E} main sub (some payload) ≡ ok (record { buf = message main sub content })
  unfolding new_net_msg new_buf set_version set_pack_len set_main_cmd set_sub_cmd put_uint16
      Option.bind
  new_net_msg_buf payload e =
      let m = length content in
      let len = suc (suc (suc (suc (suc (suc (suc (suc m))))))) in
      let kept : leb m 16376 ≡ true = ground arith in
      let r4 : ltb len 4 ≡ false = ground arith in
      let r6 : ltb len 6 ≡ false = ground arith in
      let r8 : ltb len 8 ≡ false = ground arith in
      let total : u16 (len + 8) ≡ m + 16 = omega arith in
      let nonempty : (len == 0) ≡ false = ground arith in
      rw (e, kept, nonempty, r4, total, r6, r8, copy-nil) refl

-- A new message with a body of at most 16376 bytes has the version byte, the two commands and the
-- body it was given; its length field is 8 more than the length of its buffer.
pub new_net_msg_fields :
    {E : Type 0} (main sub : ℕ) (content : List ℕ) (payload : Payload)
    → main < 65536
    → sub < 65536
    → length content ≤ 16376
    → data_to_buf payload ≡ some content
    → (msg : NetMsg) × (new_net_msg {E = E} main sub (some payload) ≡ ok msg)
      × (version {E = E} msg ≡ ok 0x89)
      × (main_cmd {E = E} msg ≡ ok main)
      × (sub_cmd {E = E} msg ≡ ok sub)
      × (body {E = E} msg ≡ ok content)
      × (pack_len {E = E} msg ≡ ok (length msg.buf + 8))
unfolding version main_cmd sub_cmd body pack_len get_uint16
new_net_msg_fields main sub content payload main_fits sub_fits fits e =
    let m = length content in
    let len = suc (suc (suc (suc (suc (suc (suc (suc m))))))) in
    let has_head : ltb len 8 ≡ false = ground arith in
    let cmd1 : le16 (byte0 main) (byte1 main) ≡ main = omega arith in
    let cmd2 : le16 (byte0 sub) (byte1 sub) ≡ sub = omega arith in
    let size : le16 (byte0 (m + 16)) (byte1 (m + 16)) ≡ len + 8 = omega arith in
    (
      record { buf = message main sub content },
      new_net_msg_buf main sub content fits payload e,
      refl,
      ap ok cmd1,
      ap ok cmd2,
      rw (has_head) refl,
      ap ok size,
    )

pub message-IsPacket :
    (main sub : ℕ) (content : List ℕ)
    → length content ≤ 16376
    → All IsByte content
    → IsPacket (message main sub content)
message-IsPacket main sub content fits bytes = record {
  bytes = (
    omega arith,
    ((
      omega arith,
      ((
        omega arith,
        ((
          omega arith,
          ((omega arith, ((omega arith, ((omega arith, ((omega arith, (bytes))))))))),
        )),
      )),
    )),
  );
  has_head = omega arith;
  fits = omega arith;
}

copy-all : (dst src : List ℕ) → length dst ≡ length src → copy dst src ≡ src
copy-all [] [] e = refl
copy-all [] (y ∷ src) e = absurd (omega arith)
copy-all (x ∷ dst) [] e = absurd (omega arith)
copy-all (x ∷ dst) (y ∷ src) e = ap (◌∷◌ y) (copy-all dst src (omega arith))

drop-copy_at : (n : ℕ) (dst src : List ℕ) → drop n (copy_at n dst src) ≡ copy (drop n dst) src
drop-copy_at zero dst src = refl
drop-copy_at (suc n) [] src = refl
drop-copy_at (suc n) (x ∷ dst) src = drop-copy_at n dst src

take-copy_at : (n : ℕ) (dst src : List ℕ) → take n (copy_at n dst src) ≡ take n dst
take-copy_at zero dst src = refl
take-copy_at (suc n) [] src = refl
take-copy_at (suc n) (x ∷ dst) src = ap (◌∷◌ x) (take-copy_at n dst src)

length-copy_at : (n : ℕ) (dst src : List ℕ) → length (copy_at n dst src) ≡ length dst
length-copy_at zero [] src = refl
length-copy_at zero (x ∷ dst) [] = refl
length-copy_at zero (x ∷ dst) (y ∷ src) = ap suc (length-copy_at zero dst src)
length-copy_at (suc n) [] src = refl
length-copy_at (suc n) (x ∷ dst) src = ap suc (length-copy_at n dst src)

take-append_long : (n : ℕ) (xs ys : List ℕ) → n ≤ length xs → take n (xs ++ ys) ≡ take n xs
take-append_long zero xs ys h = refl
take-append_long (suc n) [] ys h = absurd (omega arith)
take-append_long (suc n) (x ∷ xs) ys h = ap (◌∷◌ x) (take-append_long n xs ys (omega arith))

take-take : (m n : ℕ) (xs : List ℕ) → m ≤ n → take m (take n xs) ≡ take m xs
take-take zero n xs h = refl
take-take (suc m) zero xs h = absurd (omega arith)
take-take (suc m) (suc n) [] h = refl
take-take (suc m) (suc n) (x ∷ xs) h = ap (◌∷◌ x) (take-take m n xs (omega arith))

-- The buffer, made as long as `need`, before a body is copied in.
abbrev fitted : List ℕ → ℕ → List ℕ
fitted buf need =
    if ltb (length buf) need then buf ++ replicate (need - length buf) 0 else take need buf

fitted_lem :
    (buf : List ℕ) (n : ℕ)
    → 8 ≤ length buf
    → (length (fitted buf (n + 8)) ≡ n + 8) × (take 8 (fitted buf (n + 8)) ≡ take 8 buf)
fitted_lem buf n h = elim (Bool-cases (ltb (length buf) (n + 8))) [
  | inl longer ↦
      let len = length-append buf (replicate (n + 8 - length buf) 0) in
      let padding : length (replicate {A = ℕ} (n + 8 - length buf) 0) ≡ n + 8 - length buf =
        length-replicate {A = ℕ} (n + 8 - length buf) 0 in
      let all : length (buf ++ replicate (n + 8 - length buf) 0) ≡ n + 8 =
        omega (arith, len, padding, ltb→lt (length buf) (n + 8) longer) in
      rw (longer) (all, take-append_long 8 buf (replicate (n + 8 - length buf) 0) h)
  | inr shorter ↦
      let len = length-take (n + 8) buf in
      let enough : n + 8 ≤ length buf = ground arith in
      let all : length (take (n + 8) buf) ≡ n + 8 = omega (arith, len, enough) in
      rw (shorter) (all, take-take 8 (n + 8) buf (omega arith))
]

-- Once the message has its head, setting a body makes it the body, of any length, and keeps the
-- eight bytes of the head.
pub set_body_lem :
    {E : Type 0} (msg : NetMsg) (content : List ℕ)
    → 8 ≤ length msg.buf
    → (body {E = E} (set_body msg content) ≡ ok content)
      × (take 8 (set_body msg content).buf ≡ take 8 msg.buf)
unfolding body set_body
set_body_lem msg content h =
    let (len, head) = fitted_lem msg.buf (length content) h in
    let dst = fitted msg.buf (length content + 8) in
    let total = length-copy_at 8 dst content in
    let has_head : ltb (length (copy_at 8 dst content)) 8 ≡ false = ground (arith, total, len) in
    let rest = length-drop 8 dst in
    (
      rw (has_head) (
          ap ok (
            drop-copy_at 8 dst content ∙ copy-all (drop 8 dst) content (omega (arith, rest, len)))),
      take-copy_at 8 dst content ∙ head,
    )

-- ===== src/TcpClient/Loops/Ends.antt =====
-- A reader ends: each message takes the eight bytes of its head off the connection.
use cc_be_chat_test.Common.{
  ℕ, zero, suc, ◌+◌, ◌-◌, ◌*◌, ◌≡◌, ◌≢◌, ◌≤◌, ◌<◌, refl, ap, Bool, not, ◌&&◌, Bool-cases,
  Option-cases, inl, inr, Option, List, ◌∷◌, ◌++◌, length, take, drop, get_or, get_elem?, set,
  if◌then◌else◌, length-take, length-drop, ltb, ◌==◌, arith, Outcome, ok, err, panic,
}
use cc_be_chat_test.NetMsg.{NetMsg, Coder}
use cc_be_chat_test.Delegate.{
  TcpClient, DelegateError, recv_msg, recv_head, recv_body, recv_decrypt, recv_decrypted,
  coder_error, read_full, add_read_len, set_real_ip,
}
use cc_be_chat_test.TcpClient.Loops.{stopping, panicked, reading, Read, read_on, reader}

module _ {E S : Type 0} (coder : Option (Coder E S)) (max_pack_len : ℕ) where
  Result : Type 0
  Result = TcpClient S × Outcome (DelegateError E) NetMsg

  -- If there is a message, at least `n` of `before` bytes are gone.
  abbrev Takes : ℕ → ℕ → TcpClient S × Outcome (DelegateError E) NetMsg → Type 0
  Takes n before (client, ok msg) = length client.incoming + n ≤ before
  Takes n before (client, err e) = Unit {0}
  Takes n before (client, panic) = Unit {0}

  decrypted-Takes :
      (n before : ℕ) (client : TcpClient S) (r : S × Outcome E NetMsg)
      → length client.incoming + n ≤ before
      → Takes n before (recv_decrypted coder max_pack_len client r)
  unfolding recv_decrypted
  decrypted-Takes n before client (s, ok msg) h = h
  decrypted-Takes n before client (s, err e) h = tt
  decrypted-Takes n before client (s, panic) h = tt

  body-Takes :
      (n before : ℕ) (deadline : Bool) (pack_len : ℕ) (head : List ℕ) (client : TcpClient S)
      → length client.incoming + n ≤ before
      → Takes n before (recv_body coder max_pack_len deadline pack_len head client)
  unfolding recv_body recv_decrypt read_full add_read_len
  body-Takes n before deadline pack_len head client h = elim (Bool-cases (ltb 8 pack_len)) [
    | inr short ↦ rw (short) (decrypted-Takes n before client _ h)
    | inl long ↦ elim (Bool-cases deadline) [
      | inr unset ↦ rw (long, unset) tt
      | inl is_set ↦ elim (Bool-cases (ltb max_pack_len pack_len)) [
        | inl too_much ↦ rw (long, is_set, too_much) tt
        | inr fits ↦
            let need = pack_len - 8 in
            elim (Bool-cases (ltb (length (take need client.incoming)) need)) [
              | inl few ↦ rw (long, is_set, fits, few) tt
              | inr enough ↦
                  rw (long, is_set, fits, enough)
                    (decrypted-Takes n before _ _
                      (omega (arith, h, length-drop need client.incoming)))
            ]
      ]
    ]
  ]

  -- After the length of the packet has been read from its head.
  measured-Takes :
      (n before : ℕ) (client : TcpClient S) (o : Outcome E ℕ)
      (k : ℕ → TcpClient S × Outcome (DelegateError E) NetMsg)
      → ((len : ℕ) → Takes n before (k len))
      → Takes n before (elim o as (λ x. TcpClient S × Outcome (DelegateError E) NetMsg) [
        | ok len ↦ k len
        | err e ↦ (client, err (coder_error e))
        | panic ↦ (client, panic)
      ])
  measured-Takes n before client (ok len) k each = each len
  measured-Takes n before client (err e) k each = tt
  measured-Takes n before client panic k each = tt

  head-Takes :
      (n before : ℕ) (deadline : Bool) (info : List ℕ) (client : TcpClient S)
      → length client.incoming + n ≤ before
      → Takes (n + 4) before (recv_head coder max_pack_len deadline info client)
  unfolding recv_head read_full set_real_ip
  head-Takes n before deadline info client h =
      let c = get_or info 0 0 == 0x99 in
      let need : ℕ = if c then 8 else 4 in
      let read = read_full need client in
      let by_length : ℕ → TcpClient S × Outcome (DelegateError E) NetMsg = λ len.
        if c
        then recv_body coder max_pack_len deadline len (set (info ++ drop 4 read.0) 0 137)
            (set_real_ip (take 4 read.0) read.1)
        else recv_body coder max_pack_len deadline len (info ++ read.0) read.1 in
      elim (Bool-cases (ltb (length (take need client.incoming)) need)) [
        | inl few ↦ rw (few) tt
        | inr enough ↦ rw (enough) (
            measured-Takes (n + 4) before read.1 _ by_length (λ len. elim (Bool-cases c) [
              | inl proxied ↦
                  let eight = rw proxied at enough in
                  let left : length (drop 8 client.incoming) + (n + 4) ≤ before =
                    ground
                      (arith, h, length-take 8 client.incoming, length-drop 8 client.incoming) in
                  rw (proxied) (body-Takes (n + 4) before deadline len _ _ left)
              | inr plain ↦
                  let four = rw plain at enough in
                  let left : length (drop 4 client.incoming) + (n + 4) ≤ before =
                    ground
                      (arith, h, length-take 4 client.incoming, length-drop 4 client.incoming) in
                  rw (plain) (body-Takes (n + 4) before deadline len _ _ left)
            ]))
      ]

  -- A message that RecvMsg returns took eight bytes at least.
  recv-Takes :
      (head_deadline body_deadline : Bool) (client : TcpClient S)
      → Takes 8
          (length client.incoming)
          (recv_msg coder max_pack_len head_deadline body_deadline client)
  unfolding recv_msg read_full add_read_len
  recv-Takes head_deadline body_deadline client = elim (Bool-cases head_deadline) [
    | inr unset ↦ rw (unset) tt
    | inl is_set ↦ elim (Bool-cases (ltb (length (take 4 client.incoming)) 4)) [
      | inl few ↦ rw (is_set, few) tt
      | inr enough ↦ elim (Option-cases (get_elem? (take 4 client.incoming) 0)) [
        | inl missing ↦ rw (is_set, enough, missing) tt
        | inr (b, e) ↦ elim (Bool-cases (not (b == 0x89) && not (b == 0x99))) [
          | inl bad ↦ rw (is_set, enough, e, bad) tt
          | inr good ↦
              let four : length client.incoming ≤ 3 → ⊥ =
                ground (arith, length-take 4 client.incoming) in
              rw (is_set, enough, e, good)
                (head-Takes 4 (length client.incoming) body_deadline (take 4 client.incoming) _
                  (omega (arith, four, length-drop 4 client.incoming)))
        ]
      ]
    ]
  ]

  -- What a reader has done when it ends: `before` bytes were there when it began.
  abbrev Finished : ℕ → Read coder max_pack_len → Type 0
  Finished before (msgs, (client, end)) = (end ≢ reading) × (8 * length msgs ≤ before)

  stopping_ends : stopping ≢ reading
  stopping_ends e = absurd (cc)

  panicked_ends : panicked ≢ reading
  panicked_ends e = absurd (cc)

  round_ends :
      (r : TcpClient S × Outcome (DelegateError E) NetMsg)
      (rest : TcpClient S → Read coder max_pack_len) (before : ℕ)
      → Takes 8 before r
      → ((next : TcpClient S)
          → length next.incoming + 8 ≤ before
          → Finished (length next.incoming) (rest next))
      → Finished before (read_on coder max_pack_len r rest)
  unfolding read_on
  round_ends (client, ok msg) rest before took later =
      let done = later client took in (done.0, omega (arith, done.1, took))
  round_ends (client, err e) rest before took later = (stopping_ends, omega arith)
  round_ends (client, panic) rest before took later = (panicked_ends, omega arith)

  reader-Finished :
      (deadlines : ℕ → Bool × Bool) (fuel round : ℕ) (client : TcpClient S)
      → length client.incoming < fuel
      → Finished (length client.incoming) (reader coder max_pack_len deadlines fuel round client)
  unfolding reader read_on
  reader-Finished deadlines zero round client h = absurd (omega arith)
  reader-Finished deadlines (suc fuel) round client h =
      round_ends (recv_msg coder max_pack_len (deadlines round).0 (deadlines round).1 client)
        (reader coder max_pack_len deadlines fuel (round + 1)) (length client.incoming)
        (recv-Takes (deadlines round).0 (deadlines round).1 client)
        (λ next fewer. reader-Finished deadlines fuel (round + 1) next (omega (arith, h, fewer)))

  same_round :
      (r : TcpClient S × Outcome (DelegateError E) NetMsg)
      (rest rest' : TcpClient S → Read coder max_pack_len) (before : ℕ)
      → Takes 8 before r
      → ((next : TcpClient S) → length next.incoming + 8 ≤ before → rest next ≡ rest' next)
      → read_on coder max_pack_len r rest ≡ read_on coder max_pack_len r rest'
  unfolding read_on
  same_round (client, ok msg) rest rest' before took same =
      ap (λ after. (msg ∷ after.0, after.1)) (same client took)
  same_round (client, err e) rest rest' before took same = refl
  same_round (client, panic) rest rest' before took same = refl

  reader-fuel :
      (deadlines : ℕ → Bool × Bool) (fuel fuel' round : ℕ) (client : TcpClient S)
      → length client.incoming < fuel
      → length client.incoming < fuel'
      → reader coder max_pack_len deadlines fuel round client
        ≡ reader coder max_pack_len deadlines fuel' round client
  unfolding reader
  reader-fuel deadlines zero fuel' round client h h' = absurd (omega arith)
  reader-fuel deadlines (suc fuel) zero round client h h' = absurd (omega arith)
  reader-fuel deadlines (suc fuel) (suc fuel') round client h h' =
      same_round (recv_msg coder max_pack_len (deadlines round).0 (deadlines round).1 client)
        (reader coder max_pack_len deadlines fuel (round + 1))
        (reader coder max_pack_len deadlines fuel' (round + 1)) (length client.incoming)
        (recv-Takes (deadlines round).0 (deadlines round).1 client)
        (λ next fewer.
          reader-fuel deadlines fuel fuel' (round + 1) next (omega (arith, h, fewer))
            (omega (arith, h', fewer)))

-- With any coder, whatever bytes arrive and whichever deadlines can be set, the reader ends: with more
-- rounds at hand than bytes that arrive it is not still reading, more rounds change nothing, and it
-- has handed on at most one message for every eight bytes.
pub reader_ends :
    {E S : Type 0} (coder : Option (Coder E S)) (max_pack_len : ℕ) (deadlines : ℕ → Bool × Bool)
    (fuel fuel' round : ℕ) (client : TcpClient S)
    → length client.incoming < fuel
    → length client.incoming < fuel'
    → ((reader coder max_pack_len deadlines fuel round client).1.1 ≢ reading)
      × (reader coder max_pack_len deadlines fuel' round client
          ≡ reader coder max_pack_len deadlines fuel round client)
      × (8 * length (reader coder max_pack_len deadlines fuel round client).0
          ≤ length client.incoming)
reader_ends coder max_pack_len deadlines fuel fuel' round client h h' =
    let done = reader-Finished coder max_pack_len deadlines fuel round client h in
    (done.0, reader-fuel coder max_pack_len deadlines fuel' fuel round client h' h, done.1)

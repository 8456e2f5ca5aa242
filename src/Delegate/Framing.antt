-- ===== src/Delegate/Framing.antt =====
-- RecvMsg takes one frame off the connection, no more and no less.
use cc_be_chat_test.Common.{
  ℕ, ◌+◌, ◌-◌, ◌≤◌, ◌≡◌, refl, ap, sym, ◌∙◌, Option, some, List, [], ◌∷◌, ◌++◌, true, false, arith,
  length, ltb, le16, take-append, drop-append, length-Four,
}
use cc_be_chat_test.Coder.Stamp.{IsFrame}
use cc_be_chat_test.NetMsg.{Coder, get_uint16, pack_len}
use cc_be_chat_test.Delegate.{
  TcpClient, recv_msg, recv_head, recv_body, recv_decrypt, read_full, add_read_len, set_real_ip,
}

append_nil : (xs : List ℕ) → xs ++ [] ≡ xs
append_nil [] = refl
append_nil (x ∷ xs) = ap (◌∷◌ x) (append_nil xs)

module _ {E S : Type 0} (coder : Option (Coder E S)) (max_pack_len : ℕ) (client : TcpClient S) where
  -- The client after a frame with a body of `n` bytes was read: the four bytes of the second half
  -- of the head are not counted.
  abbrev pub after : ℕ → List ℕ → TcpClient S
  after n rest = record client { incoming = rest; read_len = client.read_len + 4 + n }

  abbrev pub arriving : List ℕ → TcpClient S
  arriving bytes = record client { incoming = bytes }

  body_frame :
      (read : TcpClient S) (size : ℕ) (head body rest : List ℕ)
      → read.incoming ≡ body ++ rest
      → size ≡ length body + 8
      → size ≤ max_pack_len
      → recv_body coder max_pack_len true size head read
        ≡ recv_decrypt coder max_pack_len
            (head ++ body)
            (record read { incoming = rest; read_len = read.read_len + length body })
  unfolding recv_body read_full add_read_len
  body_frame read size head [] rest e total fits =
      let only_head : ltb 8 size ≡ false = ground arith in
      let counted : read.read_len + 0 ≡ read.read_len = omega arith in
      rw (only_head) (λ i.
        recv_decrypt coder max_pack_len (sym (append_nil head) i)
          (record read { incoming = e i; read_len = sym counted i }))
  body_frame read size head (b ∷ body) rest e total fits =
      let more : ltb 8 size ≡ true = ground arith in
      let small : ltb max_pack_len size ≡ false = ground arith in
      let need : size - 8 ≡ length (b ∷ body) = omega arith in
      let whole : ltb (length (b ∷ body)) (length (b ∷ body)) ≡ false = ground arith in
      rw (more, small, need, e, take-append body rest, drop-append body rest, whole) refl

  -- One frame at the front of what arrives.
  frame_at :
      (h1 h2 h3 c0 c1 c2 c3 : ℕ) (body rest : List ℕ)
      → le16 h2 h3 ≡ length body + 8
      → length body + 8 ≤ max_pack_len
      → recv_msg coder max_pack_len true true
          (arriving (0x89 ∷ h1 ∷ h2 ∷ h3 ∷ c0 ∷ c1 ∷ c2 ∷ c3 ∷ body ++ rest))
        ≡ recv_decrypt coder max_pack_len
            (0x89 ∷ h1 ∷ h2 ∷ h3 ∷ c0 ∷ c1 ∷ c2 ∷ c3 ∷ body)
            (after (length body) rest)
  unfolding recv_msg recv_head read_full add_read_len pack_len get_uint16
  frame_at h1 h2 h3 c0 c1 c2 c3 body rest size fits =
      (body_frame (record client { incoming = body ++ rest; read_len = client.read_len + 4 })
        (le16 h2 h3) (0x89 ∷ h1 ∷ h2 ∷ h3 ∷ c0 ∷ c1 ∷ c2 ∷ c3 ∷ []) body rest refl size
        (omega (arith, size, fits)))

  -- The same frame, as a proxy forwards it.
  proxied_at :
      (h1 h2 h3 i0 i1 i2 i3 c0 c1 c2 c3 : ℕ) (body rest : List ℕ)
      → le16 h2 h3 ≡ length body + 8
      → length body + 8 ≤ max_pack_len
      → recv_msg coder max_pack_len true true
          (arriving (0x99 ∷ h1 ∷ h2 ∷ h3 ∷ i0 ∷ i1 ∷ i2 ∷ i3 ∷ c0 ∷ c1 ∷ c2 ∷ c3 ∷ body ++ rest))
        ≡ recv_decrypt coder max_pack_len
            (0x89 ∷ h1 ∷ h2 ∷ h3 ∷ c0 ∷ c1 ∷ c2 ∷ c3 ∷ body)
            (record (after (length body) rest) { real_ip = some (i0 ∷ i1 ∷ i2 ∷ i3 ∷ []) })
  unfolding recv_msg recv_head read_full add_read_len pack_len get_uint16 set_real_ip
  proxied_at h1 h2 h3 i0 i1 i2 i3 c0 c1 c2 c3 body rest size fits =
      (body_frame
        (record client {
          incoming = body ++ rest;
          read_len = client.read_len + 4;
          real_ip = some (i0 ∷ i1 ∷ i2 ∷ i3 ∷ []);
        })
        (le16 h2 h3) (0x89 ∷ h1 ∷ h2 ∷ h3 ∷ c0 ∷ c1 ∷ c2 ∷ c3 ∷ []) body rest refl size
        (omega (arith, size, fits)))

  eight_bytes :
      (h0 h1 h2 h3 c0 c1 c2 c3 : ℕ) (body rest : List ℕ)
      → IsFrame 0x89 (h0 ∷ h1 ∷ h2 ∷ h3 ∷ c0 ∷ c1 ∷ c2 ∷ c3 ∷ body)
      → length body + 8 ≤ max_pack_len
      → recv_msg coder max_pack_len true true
          (arriving (h0 ∷ h1 ∷ h2 ∷ h3 ∷ c0 ∷ c1 ∷ c2 ∷ c3 ∷ body ++ rest))
        ≡ recv_decrypt coder max_pack_len
            (h0 ∷ h1 ∷ h2 ∷ h3 ∷ c0 ∷ c1 ∷ c2 ∷ c3 ∷ body)
            (after (length (h0 ∷ h1 ∷ h2 ∷ h3 ∷ c0 ∷ c1 ∷ c2 ∷ c3 ∷ body) - 8) rest)
  eight_bytes h0 h1 h2 h3 c0 c1 c2 c3 body rest frame fits =
      let behind_head : length (h0 ∷ h1 ∷ h2 ∷ h3 ∷ c0 ∷ c1 ∷ c2 ∷ c3 ∷ body) - 8 ≡ length body =
        omega arith in
      let size : le16 h2 h3 ≡ length body + 8 = omega (arith, frame.size) in
      rw (frame.head, behind_head) (frame_at h1 h2 h3 c0 c1 c2 c3 body rest size fits)

  -- With both deadlines set, RecvMsg takes a frame that fits, whatever follows it, off the
  -- connection, and the bytes behind the frame stay there: the coder gets the frame.
  pub recv_frame :
      (wire rest : List ℕ)
      → IsFrame 0x89 wire
      → length wire ≤ max_pack_len
      → recv_msg coder max_pack_len true true (arriving (wire ++ rest))
        ≡ recv_decrypt coder max_pack_len wire (after (length wire - 8) rest)
  recv_frame wire rest frame fits =
      let f = length-Four wire (omega (arith, frame.has_head)) in
      let long : 4 ≤ length f.rest = omega (arith, frame.has_head, ap length f.split) in
      let g = length-Four f.rest long in
      let split : wire ≡ f.x0 ∷ f.x1 ∷ f.x2 ∷ f.x3 ∷ g.x0 ∷ g.x1 ∷ g.x2 ∷ g.x3 ∷ g.rest =
        f.split ∙ ap (λ bs. f.x0 ∷ f.x1 ∷ f.x2 ∷ f.x3 ∷ bs) g.split in
      let len : length g.rest + 8 ≤ max_pack_len = omega (arith, fits, ap length split) in
      rw (split)
        (eight_bytes f.x0 f.x1 f.x2 f.x3 g.x0 g.x1 g.x2 g.x3 g.rest rest (rw split at frame) len)

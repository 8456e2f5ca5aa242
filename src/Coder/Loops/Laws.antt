-- ===== src/Coder/Loops/Laws.antt =====
-- The receiving loop undoes the sending loop, for coders whose byte mappings undo one another.
use cc_be_chat_test.Common.{
  ℕ, suc, ◌+◌, ◌<◌, ◌≡◌, refl, ap, ap₂, List, [], ◌∷◌, IsByte, All, arith, u8, length,
}
use cc_be_chat_test.Coder.Loops.{ByteMapping, send_loop, recv_loop}

abbrev pub sum : List ℕ → ℕ
sum [] = 0
sum (b ∷ bs) = b + sum bs

module _ {S : Type 0} (mapping : ByteMapping S) where
  pub send_loop-check :
      (s : S) (c : ℕ) (bs : List ℕ) → c < 256 → (send_loop mapping s c bs).1 ≡ u8 (c + sum bs)
  unfolding send_loop
  send_loop-check s c [] h = omega arith
  send_loop-check s c (b ∷ bs) h =
      omega (arith, send_loop-check (mapping s b).1 (u8 (c + b)) bs (omega arith))

  pub recv_loop-check :
      (s : S) (c : ℕ) (cs : List ℕ)
      → c < 256
      → (recv_loop mapping s c cs).1 ≡ u8 (c + sum (recv_loop mapping s c cs).0)
  unfolding recv_loop
  recv_loop-check s c [] h = omega arith
  recv_loop-check s c (x ∷ cs) h =
      let (b, s') = mapping s x in omega (arith, recv_loop-check s' (u8 (c + b)) cs (omega arith))

-- `InStep s t`: what `s` sends next, `t` can receive.
module _ {S T : Type 0} (sends : ByteMapping S) (receives : ByteMapping T) (InStep : S → T → Type 0)
    (step : (s : S) (t : T) (b : ℕ)
      → InStep s t
      → IsByte b
      → IsByte (sends s b).0
        × ((receives t (sends s b).0).0 ≡ b)
        × InStep (sends s b).1 (receives t (sends s b).0).1) where
  pub loops_inverse :
      (s : S) (t : T) (c d : ℕ) (bs : List ℕ)
      → InStep s t
      → All IsByte bs
      → let sent = send_loop sends s c bs in
        let got = recv_loop receives t d sent.0 in
        (got.0 ≡ bs) × All IsByte sent.0 × (length sent.0 ≡ length bs) × InStep sent.2 got.2
  unfolding send_loop recv_loop
  loops_inverse s t c d [] r h = (refl, tt, refl, r)
  loops_inverse s t c d (b ∷ bs) r (hb, h) =
      let (byte, back, r') = step s t b r hb in
      let s' = (sends s b).1 in
      let t' = (receives t (sends s b).0).1 in
      let rest = loops_inverse s' t' (u8 (c + b)) (u8 (d + (receives t (sends s b).0).0)) bs r' h in
      (ap₂ ◌∷◌ back rest.0, (byte, rest.1), ap suc rest.2, rest.3)

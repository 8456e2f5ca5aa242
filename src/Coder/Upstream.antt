-- ===== src/Coder/Upstream.antt =====
-- From the client to the server: ClientCoder.Encrypt and ServerCoder.Decrypt.
pub mod Later
pub mod First
use native.Mathlib.Decide.{ℕ_discrete}
use cc_be_chat_test.Common.{
  ℕ, suc, ◌+◌, ◌-◌, ◌≤◌, ◌<◌, ◌^◌, ◌≡◌, ◌≢◌, refl, sym, ap, ◌∙◌, List, [], ◌∷◌, ◌++◌, arith, IsByte,
  All, u8, u32, byte0, byte1, byte2, byte3, get_or, length, ok, ◌>>=◌, Four, length-Four,
}
use cc_be_chat_test.Coder.ByteMaps.{maps_inverse, mapped_back}
use cc_be_chat_test.Coder.Buffers.{Opens, buffer-Opens}
use cc_be_chat_test.Coder.Loops.{send_loop, recv_loop}
use cc_be_chat_test.Coder.Loops.Laws.{sum, send_loop-check, recv_loop-check, loops_inverse}
use cc_be_chat_test.Coder.InStep.{InStep}
use cc_be_chat_test.Coder.Stamp.{
  IsFrame, sized-IsFrame, check_code, check_code_lem, check_code_cancels,
}
use cc_be_chat_test.Coder.Packet.{encrypt_buffer, decrypt_buffer}
use cc_be_chat_test.Coder.Server.{ServerCoder}
use cc_be_chat_test.Coder.Server
use cc_be_chat_test.Coder.Client.{ClientCoder, first_key}
use cc_be_chat_test.Coder.Client
use cc_be_chat_test.Coder.Client.FirstKey.{first_key-lt, first_key-ne-zero}

-- The two coders in the middle of a packet, which moves only the rounds.
abbrev pub MidPacket : ClientCoder → ServerCoder → ClientCoder → ServerCoder → Type 0
MidPacket cc sc s t =
    (s.cb_send_round ≡ t.cb_recv_round)
    × (s.cb_send_round < 256)
    × (s ≡ record cc { cb_send_round = s.cb_send_round })
    × (t ≡ record sc { cb_recv_round = t.cb_recv_round })

one_step :
    (cc : ClientCoder) (sc : ServerCoder) (s : ClientCoder) (t : ServerCoder) (b : ℕ)
    → MidPacket cc sc s t
    → IsByte b
    → IsByte (Client.map_send_byte s b).0
      × ((Server.map_recv_byte t (Client.map_send_byte s b).0).0 ≡ b)
      × MidPacket cc sc
          (Client.map_send_byte s b).1
          (Server.map_recv_byte t (Client.map_send_byte s b).0).1
unfolding Client.map_send_byte Server.map_recv_byte
one_step cc sc s t b (e, fits, es, et) h =
    let back = mapped_back b s.cb_send_round h fits in
    (
      (maps_inverse (u8 (b + s.cb_send_round)) (omega arith)).0,
      rw (← e) back,
      (
        omega arith,
        omega arith,
        ap (λ (x : ClientCoder). record x { cb_send_round = u8 (s.cb_send_round + 3) }) es,
        ap (λ (x : ServerCoder). record x { cb_recv_round = u8 (t.cb_recv_round + 3) }) et,
      ),
    )

-- A packet is sent and read: the server gets `expected`, and the coders stay in step.
pub record Delivered (random : ℕ) (cc : ClientCoder) (sc : ServerCoder) (packet expected : List ℕ)
    : Type 0 where
  pub wire : List ℕ
  pub cc' : ClientCoder
  pub sc' : ServerCoder
  pub sent : Client.encrypt random cc packet ≡ (cc', ok wire)
  pub got : Server.decrypt sc wire ≡ (sc', ok expected)
  pub in_step : InStep cc' sc'
  pub framed : IsFrame (get_or packet 0 0) wire
  pub counted : cc'.dw_send_packet_count ≡ u32 (cc.dw_send_packet_count + 1)

-- What the loops make of a body, between a client and a server whose keys are settled.
pub record Mapped (cc : ClientCoder) (sc : ServerCoder) (body : List ℕ) : Type 0 where
  pub mapped : List ℕ
  pub check : ℕ
  pub s : ClientCoder
  pub t : ServerCoder
  pub sent_loop : send_loop Client.map_send_byte cc 0 body ≡ (mapped, check, s)
  pub got_loop : recv_loop Server.map_recv_byte sc (check_code body) mapped ≡ (body, 0, t)
  pub bytes : All IsByte mapped
  pub same_length : length mapped ≡ length body
  pub code_sent : u8 (255 - check + 1) ≡ check_code body
  pub mid : MidPacket cc sc s t

pub body-Mapped :
    (cc : ClientCoder) (sc : ServerCoder) (body : List ℕ)
    → cc.cb_send_round ≡ sc.cb_recv_round
    → cc.cb_send_round < 256
    → All IsByte body
    → Mapped cc sc body
body-Mapped cc sc body rounds fits bytes =
    let code = check_code body in
    let (restored, mapped_bytes, same_length, mid) =
      loops_inverse Client.map_send_byte Server.map_recv_byte (MidPacket cc sc) (one_step cc sc) cc
        sc 0 code body (rounds, fits, refl, refl) bytes in
    let (mapped, check, s) = send_loop Client.map_send_byte cc 0 body in
    let t = (recv_loop Server.map_recv_byte sc code mapped).2 in
    let cancelled : (recv_loop Server.map_recv_byte sc code mapped).1 ≡ 0 =
      recv_loop-check Server.map_recv_byte sc code mapped (omega arith)
      ∙ ap (λ (bs : List ℕ). u8 (code + sum bs)) restored
      ∙ check_code_cancels (sum body) in
    record {
      mapped = mapped;
      check = check;
      s = s;
      t = t;
      sent_loop = refl;
      got_loop = λ i. (restored i, cancelled i, t);
      bytes = mapped_bytes;
      same_length = same_length;
      code_sent =
          rw (send_loop-check Client.map_send_byte cc 0 body (omega arith))
            (check_code_lem (sum body));
      mid = mid;
    }

-- The states after a packet: the server's own direction is as it was.
pub moved-InStep :
    (s : ClientCoder) (t : ServerCoder) (key : ℕ)
    → (s.cb_send_round ≡ t.cb_recv_round) × (s.cb_send_round < 256)
    → (t.cb_send_round ≡ s.cb_recv_round) × (t.cb_send_round < 256)
    → s.dw_send_packet_count ≡ t.dw_recv_packet_count
    → (t.dw_send_xor_key ≡ s.dw_recv_xor_key)
      × (t.dw_send_xor_key < 2 ^ 32)
      × (t.dw_send_xor_key ≢ 0)
    → key < 2 ^ 32
    → InStep
        (record s {
          dw_send_packet_count = u32 (s.dw_send_packet_count + 1);
          dw_send_xor_key = key;
        })
        (record t {
          dw_recv_packet_count = u32 (t.dw_recv_packet_count + 1);
          dw_recv_xor_key = key;
        })
moved-InStep s t key up down counts keys fits = record {
  up_rounds = up.0;
  up_fits = up.1;
  down_rounds = down.0;
  down_fits = down.1;
  counts = omega (arith, counts);
  up_keys = λ h. refl;
  up_key_fits = λ h. fits;
  down_keys = λ h. keys.0;
  down_key_fits = λ h. keys.1;
  down_has_key = λ h. keys.2;
}

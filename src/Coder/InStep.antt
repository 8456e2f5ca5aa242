-- ===== src/Coder/InStep.antt =====
-- When the two coders of a connection understand one another.
use cc_be_chat_test.Common.{◌<◌, ◌^◌, ◌≡◌, ◌≢◌, refl, arith}
use cc_be_chat_test.Coder.Server.{ServerCoder, new_server_coder}
use cc_be_chat_test.Coder.Client.{ClientCoder, new_client_coder}

-- No packet is on its way. Before the client's first packet, and when its packet count has come
-- round to 0 again, the keys are still to be agreed on.
pub record InStep (cc : ClientCoder) (sc : ServerCoder) : Type 0 where
  pub up_rounds : cc.cb_send_round ≡ sc.cb_recv_round
  pub up_fits : cc.cb_send_round < 256
  pub down_rounds : sc.cb_send_round ≡ cc.cb_recv_round
  pub down_fits : sc.cb_send_round < 256
  pub counts : cc.dw_send_packet_count ≡ sc.dw_recv_packet_count
  pub up_keys : cc.dw_send_packet_count ≢ 0 → cc.dw_send_xor_key ≡ sc.dw_recv_xor_key
  pub up_key_fits : cc.dw_send_packet_count ≢ 0 → cc.dw_send_xor_key < 2 ^ 32
  pub down_keys : cc.dw_send_packet_count ≢ 0 → sc.dw_send_xor_key ≡ cc.dw_recv_xor_key
  pub down_key_fits : cc.dw_send_packet_count ≢ 0 → sc.dw_send_xor_key < 2 ^ 32
  pub down_has_key : cc.dw_send_packet_count ≢ 0 → sc.dw_send_xor_key ≢ 0

pub new-InStep : InStep new_client_coder new_server_coder
unfolding new_client_coder new_server_coder
new-InStep = record {
  up_rounds = refl;
  up_fits = omega arith;
  down_rounds = refl;
  down_fits = omega arith;
  counts = refl;
  up_keys = λ h. absurd (h refl);
  up_key_fits = λ h. absurd (h refl);
  down_keys = λ h. absurd (h refl);
  down_key_fits = λ h. absurd (h refl);
  down_has_key = λ h. absurd (h refl);
}

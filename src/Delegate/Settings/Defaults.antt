-- ===== src/Delegate/Settings/Defaults.antt =====
-- What Init makes of the settings.
use cc_be_chat_test.Common.{ℕ, ◌≡◌, ◌≢◌, ◌*◌, refl, true, false, Option, none, some, arith, by_test}
use cc_be_chat_test.Timer.{Timer, new_timer}
use cc_be_chat_test.Delegate.Settings.{Settings, init, or_default}

-- Every number is set, and there is a timer.
pub record IsReady {W : Type 0} (dele : Settings W) : Type 0 where
  pub inited : dele.inited ≡ true
  pub alive_time : dele.alive_time ≢ 0
  pub recv_block_time : dele.recv_block_time ≢ 0
  pub send_block_time : dele.send_block_time ≢ 0
  pub max_pack_len : dele.max_pack_len ≢ 0
  pub recv_buf_len : dele.recv_buf_len ≢ 0
  pub send_buf_len : dele.send_buf_len ≢ 0
  pub send_queue_size : dele.send_queue_size ≢ 0
  pub asynctimer : dele.asynctimer ≢ none

ready : (value default : ℕ) → default ≢ 0 → or_default value default ≢ 0
ready value default h = ground (arith, h)

has_timer : (t : Option Timer) → elim t [ none ↦ some new_timer | some u ↦ some u ] ≢ none
has_timer none e = ground (arith, e)
has_timer (some t) e = ground (arith, e)

module _ {W : Type 0} (dele : Settings W) where
  -- After the first Init every length, time and size is set and there is a timer, whatever was set
  -- before; a second Init changes nothing.
  pub init-IsReady : dele.inited ≡ false → IsReady (init dele) × (init (init dele) ≡ init dele)
  unfolding init
  init-IsReady fresh =
      by_test (λ (d : Settings W). IsReady d × (init d ≡ d)) dele.inited
        (λ already. absurd (ground (arith, already, fresh)))
        (λ e. (
          record {
            inited = refl;
            alive_time = ready dele.alive_time 60000 (omega arith);
            recv_block_time = ready dele.recv_block_time 20000 (omega arith);
            send_block_time = ready dele.send_block_time 5000 (omega arith);
            max_pack_len = ready dele.max_pack_len (1024 * 1024) (omega arith);
            recv_buf_len = ready dele.recv_buf_len (1024 * 4) (omega arith);
            send_buf_len = ready dele.send_buf_len (1024 * 4) (omega arith);
            send_queue_size = ready dele.send_queue_size 256 (omega arith);
            asynctimer = has_timer dele.asynctimer;
          },
          refl,
        ))

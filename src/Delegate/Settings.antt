-- ===== src/Delegate/Settings.antt =====
-- The settings of DefaultNetDelegate (tcp/netdelegate.go), its Init, and its callbacks, which act on a
-- world of the program's. Durations are numbers of milliseconds; a server is known by its name's number.
use mathlib.Core.Option
use cc_be_chat_test.Common.{
  ℕ, ◌*◌, ◌≡◌, ◌≢◌, ◌≤◌, refl, Bool, true, false, Option, none, some, ◌==◌, if◌then◌else◌, List,
  arith, by_test,
}
use cc_be_chat_test.Delegate.{default_max_pack_len}
use cc_be_chat_test.Timer.{Timer, new_timer}
pub mod Defaults

pub record Settings (W : Type 0) : Type 0 where
  pub inited : Bool
  pub server : Option ℕ
  pub max_pack_len : ℕ
  pub recv_block_time : ℕ
  pub recv_buf_len : ℕ
  pub send_block_time : ℕ
  pub send_buf_len : ℕ
  pub send_queue_size : ℕ
  pub alive_time : ℕ
  pub no_delay : Bool
  pub keep_alive : Bool
  pub asynctimer : Option Timer
  pub on_server_stop : Option (W → W)
  pub on_connect : Option (ℕ → W → W)
  pub on_disconnect : Option (ℕ → W → W)

abbrev pub default_recv_buf_len : ℕ
default_recv_buf_len = 1024 * 4

abbrev pub default_send_buf_len : ℕ
default_send_buf_len = 1024 * 4

abbrev pub default_keep_alive_time : ℕ
default_keep_alive_time = 60000

abbrev pub default_recv_block_time : ℕ
default_recv_block_time = 20000

abbrev pub default_send_block_time : ℕ
default_send_block_time = 5000

abbrev pub default_send_q_size : ℕ
default_send_q_size = 256

-- `if value == 0 { value = default }`
abbrev pub or_default : ℕ → ℕ → ℕ
or_default value default = if value == 0 then default else value

module _ {W : Type 0} where
  -- Init; only the first call does anything.
  unfoldable pub init : Settings W → Settings W
  init dele = if dele.inited then dele else record dele {
    inited = true;
    alive_time = or_default dele.alive_time default_keep_alive_time;
    recv_block_time = or_default dele.recv_block_time default_recv_block_time;
    send_block_time = or_default dele.send_block_time default_send_block_time;
    max_pack_len = or_default dele.max_pack_len default_max_pack_len;
    recv_buf_len = or_default dele.recv_buf_len default_recv_buf_len;
    send_buf_len = or_default dele.send_buf_len default_send_buf_len;
    send_queue_size = or_default dele.send_queue_size default_send_q_size;
    asynctimer = elim dele.asynctimer [ none ↦ some new_timer | some t ↦ some t ];
  }

  unfoldable pub set_server : Settings W → ℕ → Settings W
  set_server dele server = record dele { server = some server }

  unfoldable pub on_server_stop : Settings W → W → W
  on_server_stop dele w = elim dele.on_server_stop [ none ↦ w | some f ↦ f w ]

  unfoldable pub handle_server_stop : Settings W → Option (W → W) → Settings W
  handle_server_stop dele h = record dele { on_server_stop = h }

  unfoldable pub on_connect : Settings W → ℕ → W → W
  on_connect dele client w = elim dele.on_connect [ none ↦ w | some f ↦ f client w ]

  unfoldable pub handle_connect : Settings W → Option (ℕ → W → W) → Settings W
  handle_connect dele h = record dele { on_connect = h }

  unfoldable pub on_disconnected : Settings W → ℕ → W → W
  on_disconnected dele client w = elim dele.on_disconnect [ none ↦ w | some f ↦ f client w ]

  unfoldable pub handle_disconnected : Settings W → Option (ℕ → W → W) → Settings W
  handle_disconnected dele h = record dele { on_disconnect = h }

  unfoldable pub set_recv_block_time : Settings W → ℕ → Settings W
  set_recv_block_time dele time = record dele { recv_block_time = time }

  unfoldable pub set_send_block_time : Settings W → ℕ → Settings W
  set_send_block_time dele time = record dele { send_block_time = time }

  unfoldable pub set_recv_buf_len : Settings W → ℕ → Settings W
  set_recv_buf_len dele len = record dele { recv_buf_len = len }

  unfoldable pub set_send_buf_len : Settings W → ℕ → Settings W
  set_send_buf_len dele len = record dele { send_buf_len = len }

  unfoldable pub set_send_queue_size : Settings W → ℕ → Settings W
  set_send_queue_size dele size = record dele { send_queue_size = size }

  unfoldable pub set_max_pack_len : Settings W → ℕ → Settings W
  set_max_pack_len dele len = record dele { max_pack_len = len }

  unfoldable pub set_no_delay : Settings W → Bool → Settings W
  set_no_delay dele no_delay = record dele { no_delay = no_delay }

  unfoldable pub set_keep_alive : Settings W → Bool → Settings W
  set_keep_alive dele keep_alive = record dele { keep_alive = keep_alive }

  unfoldable pub set_alive_time : Settings W → ℕ → Settings W
  set_alive_time dele time = record dele { alive_time = time }

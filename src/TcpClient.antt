-- ===== src/TcpClient.antt =====
-- tcp/tcpclient.go: the queue between SendAsync and the goroutine `writer`, and Stop. A value that is
-- sent is opaque; the mutex makes SendAsync, a round of the writer and Stop one step each.
use mathlib.Core.Option
use cc_be_chat_test.Common.{
  ℕ, Bool, true, false, not, ◌&&◌, Option, none, some, List, [], ◌∷◌, ◌++◌, length, ltb,
  if◌then◌else◌,
}
pub mod Queue
pub mod Life
pub mod Loops
pub mod Identity

-- What becomes of a value handed to SendAsync: it waits in the queue; the queue is full (an error);
-- it is dropped, without an error, as no queue is left, or as the client has stopped.
pub data Fate : Type 0 where
  queued : Fate
  timeout : Fate
  dropped : Fate
  stopped : Fate

-- `has_queue` is whether `chSend` is not nil; `queue` is what the writer has yet to take, which it
-- does after a close too; `written` is what it has handed to the connection, and `callbacks` counts
-- the callbacks that SendAsync has called itself.
pub record TcpClient (V : Type 0) : Type 0 where
  pub running : Bool
  pub enable_reconnect : Bool
  pub has_queue : Bool
  pub queue : List V
  pub written : List V
  pub callbacks : ℕ

module _ {V : Type 0} where
  unfoldable pub new_tcp_client : Bool → TcpClient V
  new_tcp_client reconnect = record {
    running = true;
    enable_reconnect = reconnect;
    has_queue = true;
    queue = [];
    written = [];
    callbacks = 0;
  }

  -- SendAsync, for a queue of `size` values: whether a callback was given matters only to a client
  -- that has stopped, which calls it at once.
  unfoldable pub send_async : ℕ → Bool → V → TcpClient V → TcpClient V × Fate
  send_async size has_cb v client =
      if client.running
      then (if client.has_queue
          then (if ltb (length client.queue) size
              then (record client { queue = client.queue ++ (v ∷ []) }, queued)
              else (client, timeout))
          else (client, dropped))
      else (
        record client {
          callbacks = if has_cb then Prim.Native.Nat.suc client.callbacks else client.callbacks;
        },
        stopped,
      )

  -- SendMsg and SendData of a client: a value for the writer, without a callback.
  unfoldable pub send_msg : ℕ → V → TcpClient V → TcpClient V × Fate
  send_msg size msg client = send_async size false msg client

  unfoldable pub send_data : ℕ → V → TcpClient V → TcpClient V × Fate
  send_data size bytes client = send_async size false bytes client

  -- A round of the writer: nothing if the queue is empty.
  unfoldable pub write_one : TcpClient V → TcpClient V
  write_one client = elim client.queue [
    | [] ↦ client
    | v ∷ rest ↦ record client { queue = rest; written = client.written ++ (v ∷ []) }
  ]

  -- Stop: the first call stops the client; one that is not to reconnect closes its queue.
  unfoldable pub stop : TcpClient V → TcpClient V
  stop client =
      if client.running
      then (if not client.enable_reconnect
          then record client { running = false; has_queue = false }
          else record client { running = false })
      else client

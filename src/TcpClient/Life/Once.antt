-- ===== src/TcpClient/Life/Once.antt =====
-- A client that is not to reconnect stops once.
use cc_be_chat_test.Common.{ℕ, suc, ◌≤◌, ◌≡◌, true, false, List, [], ◌∷◌, ◌++◌, if◌then◌else◌}
use cc_be_chat_test.TcpClient.{TcpClient}
use cc_be_chat_test.TcpClient.Life.{
  Event, conn_closed, close_cb, disconnected, reconnecting, stopping, connected, Client,
  add_close_cb, remove_close_cb, closing, callbacks, stop_client, stop_async, stop_later,
}

-- How often the delegate was told that the client has disconnected.
pub goodbyes : List Event → ℕ
goodbyes [] = 0
goodbyes (disconnected ∷ events) = suc (goodbyes events)
goodbyes (conn_closed ∷ events) = goodbyes events
goodbyes (close_cb key ∷ events) = goodbyes events
goodbyes (reconnecting ∷ events) = goodbyes events
goodbyes (stopping ∷ events) = goodbyes events
goodbyes (connected b ∷ events) = goodbyes events

-- What happens to a client between its start and its end, in any order.
pub data Step : Client → Client → Type 0 where
  adds : (c : Client) (key : ℕ) → Step c (add_close_cb c key)
  removes : (c : Client) (key : ℕ) → Step c (remove_close_cb c key)
  stops : (c : Client) → Step c (stop_client c)
  asks : (c : Client) → Step c (stop_async c)
  timer_fires : (c : Client) → Step c (stop_later c)

pub data Steps : Client → Client → Type 0 where
  none_yet : (c : Client) → Steps c c
  then_one : {c c' c'' : Client} → Steps c c' → Step c' c'' → Steps c c''

-- The delegate has been told at most once, and not while the client runs.
pub record IsOnce (c : Client) : Type 0 where
  pub few : goodbyes c.events ≤ 1
  pub fresh : c.core.running ≡ true → goodbyes c.events ≡ 0
  pub final : c.core.enable_reconnect ≡ false

-- What a stop appends to the events.
abbrev stop_then_events : List Event → Client → List Event
stop_then_events last c =
    c.events
    ++ (closing c ++ (if c.core.enable_reconnect then reconnecting ∷ [] else callbacks c ++ last))

-- ===== src/TcpClient/Life.antt =====
-- tcp/tcpclient.go: the connection of a client, Connect and its reconnection, Start, Stop, StopAsync and the
-- callbacks of a stop. The queue is TcpClient's. What the network does is an argument; what the calls
-- set off (callbacks, goroutines, timers) is the list of events, in order.
use mathlib.Core.Option
use cc_be_chat_test.Common.{
  ℕ, zero, suc, ◌+◌, Bool, true, false, not, ◌&&◌, Option, none, some, List, [], ◌∷◌, ◌++◌, length,
  map, ◌==◌, if◌then◌else◌,
}
use cc_be_chat_test.Common.Maps.{insert, delete}
use cc_be_chat_test.TcpClient.{TcpClient, new_tcp_client, stop}
pub mod Once

-- `reconnecting` is a goroutine that sleeps a second and calls Connect, `stopping` a timer that stops
-- the client as StopAsync does.
pub data Event : Type 0 where
  conn_closed : Event
  close_cb : ℕ → Event
  disconnected : Event
  reconnecting : Event
  stopping : Event
  connected : Bool → Event

-- `close_cbs` are the keys of `closeCB`; `readers` and `writers` count the goroutines of Start, of
-- which a writer ends when its queue is closed.
pub record Client : Type 0 where
  pub core : TcpClient ℕ
  pub has_conn : Bool
  pub close_cbs : List (ℕ × Unit {0})
  pub has_connected_cb : Bool
  pub writers : ℕ
  pub events : List Event

-- What the network answers: the address resolves, the dial succeeds, the five options can be set.
pub record Network : Type 0 where
  pub resolves : Bool
  pub dials : Bool
  pub keep_alive : Bool
  pub keep_alive_period : Bool
  pub read_buffer : Bool
  pub write_buffer : Bool
  pub no_delay : Bool

-- newTcpClient without a connection, as NewTcpClient calls it.
unfoldable pub new_client : Bool → Bool → Client
new_client reconn has_cb = record {
  core = new_tcp_client reconn;
  has_conn = false;
  close_cbs = [];
  has_connected_cb = has_cb;
  writers = 0;
  events = [];
}

abbrev pub emit : Client → List Event → Client
emit client events = record client { events = client.events ++ events }

unfoldable pub add_close_cb : Client → ℕ → Client
add_close_cb client key =
    if client.core.running
    then record client { close_cbs = insert ◌==◌ client.close_cbs key tt }
    else client

unfoldable pub remove_close_cb : Client → ℕ → Client
remove_close_cb client key = record client { close_cbs = delete ◌==◌ client.close_cbs key }

-- A closed queue ends the writers once they have emptied it.
abbrev pub left_writers : Client → ℕ
left_writers client = if client.core.enable_reconnect then client.writers else 0

abbrev pub closing : Client → List Event
closing client = if client.has_conn then conn_closed ∷ [] else []

abbrev pub callbacks : Client → List Event
callbacks client = map (λ entry. close_cb entry.0) client.close_cbs

-- Stop and the body of StopAsync's timer, which differ in what comes last for a client that is not to
-- reconnect.
abbrev pub stop_then : List Event → Client → Client
stop_then last client =
    let stopped : Client = record client {
      core = stop client.core;
      writers = left_writers client;
    } in
    if client.core.running
    then emit stopped (
        closing client
        ++ (if client.core.enable_reconnect then reconnecting ∷ [] else callbacks client ++ last))
    else client

unfoldable pub stop_client : Client → Client
stop_client client = stop_then (disconnected ∷ []) client

unfoldable pub stop_async : Client → Client
stop_async client = emit client (stopping ∷ [])

unfoldable pub stop_later : Client → Client
stop_later client = stop_then [] client

abbrev pub options_set : Network → Bool
options_set net =
    net.keep_alive
    && (net.keep_alive_period && (net.read_buffer && (net.write_buffer && net.no_delay)))

-- Start of a client with a connection.
unfoldable pub start : Network → Client → Client × Bool
start net client =
    if options_set net
    then (record client { writers = client.writers + 1 }, true)
    else (emit client (conn_closed ∷ []), false)

-- The label ErrExit of Connect.
abbrev pub connect_failed : Client → Client
connect_failed client =
    if client.core.enable_reconnect
    then emit client (reconnecting ∷ [])
    else stop_async (if client.has_connected_cb then emit client (connected false ∷ []) else client)

abbrev pub run : Client → Client
run client = record client { core = record client.core { running = true } }

unfoldable pub connect : Network → Client → Client
connect net client =
    let dialed : Client = record client { has_conn = net.dials } in
    let begun = start net dialed in
    let running = run begun.0 in
    if not net.resolves
    then client
    else if not net.dials
    then connect_failed dialed
    else if not begun.1
    then connect_failed begun.0
    else if client.has_connected_cb
    then emit running (connected true ∷ [])
    else running

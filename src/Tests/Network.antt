-- ===== src/Tests/Network.antt =====
-- Clients and servers on concrete inputs.
use cc_be_chat_test.Common.{
  ℕ, ◌⊎◌, length, ◌==◌, ==_iff, arith, ◌≡◌, ◌≤◌, refl, List, [], ◌∷◌, true, false, none,
}
use cc_be_chat_test.TcpClient.{new_tcp_client, stop}
use cc_be_chat_test.TcpClient.Life.{
  Client, new_client, add_close_cb, stop_client, stop_async, stop_later, close_cb, stopping,
}
use cc_be_chat_test.TcpClient.Life.Once.{Step, Steps}
use cc_be_chat_test.Delegate.Settings.{Settings}
use cc_be_chat_test.Common.Distinct.{Distinct}
use cc_be_chat_test.TcpServer.Serving.{at_start, accepted, stopped, Called, Served-IsLoaded}
use cc_be_chat_test.TcpServer
use cc_be_chat_test.TcpServer.{
  new_server, set_max_load, accept, client_stopped, add_client, dele_client, TcpServer,
  new_tcp_server, get_tcp_server_by_name,
}
use cc_be_chat_test.TcpServer.Listening.{Answer, connection, temporary, broken, listen}
use cc_be_chat_test.TcpServer.Listening.Pauses.{pauses, listen-pauses}
use cc_be_chat_test.TcpServer.Names.{Registered, new_tcp_server-Registered}

-- A client with a callback that is stopped twice, the first time later.
abbrev stopped_twice : Client
stopped_twice = stop_client (stop_later (stop_async (add_close_cb (new_client false true) 7)))

abbrev its_steps : Steps (new_client false true) stopped_twice
its_steps =
    Steps.then_one
      (Steps.then_one
        (Steps.then_one
          (Steps.then_one (Steps.none_yet (new_client false true))
            (Step.adds (new_client false true) 7))
          (Step.asks _))
        (Step.timer_fires _))
      (Step.stops _)

-- StopAsync runs the callback, but the delegate is told nothing.
events_then : stopped_twice.events ≡ stopping ∷ close_cb 7 ∷ []
unfolding stop_client stop_later stop_async add_close_cb new_client new_tcp_client stop
events_then = refl

abbrev one_server : TcpServer
one_server = record {
  name = 1;
  running = true;
  client_num = 0;
  curr_load = 0;
  max_load = 0;
  clients = [];
  close_cbs = [];
}

abbrev answers : List Answer
answers = temporary ∷ temporary ∷ connection 4 true true ∷ temporary ∷ broken ∷ []

listen-pauses_example : (listen true answers one_server 0).1 ≡ pauses 3 0
listen-pauses_example = listen-pauses true answers one_server 0 refl

three_pauses : (listen true answers one_server 0).1 ≡ 5 ∷ 10 ∷ 20 ∷ []
three_pauses = listen-pauses true answers one_server 0 refl

new_tcp_server-Registered_example :
    Registered ((1, one_server) ∷ []) 2 (new_tcp_server ((1, one_server) ∷ []) 2)
unfolding get_tcp_server_by_name
new_tcp_server-Registered_example = new_tcp_server-Registered ((1, one_server) ∷ []) 2 refl

abbrev delegate : Settings ℕ
delegate = record {
  inited = false;
  server = none;
  max_pack_len = 0;
  recv_block_time = 100;
  recv_buf_len = 0;
  send_block_time = 0;
  send_buf_len = 0;
  send_queue_size = 0;
  alive_time = 0;
  no_delay = true;
  keep_alive = false;
  asynctimer = none;
  on_server_stop = none;
  on_connect = none;
  on_disconnect = none;
}

-- A server with room for two: three connections, of which the third is refused, and a client that
-- stops.
abbrev with_two : TcpServer
with_two = (accept (accept (set_max_load (new_server 1) 2) 5 true true).0 6 true true).0

abbrev one_left : TcpServer
one_left = client_stopped (accept with_two 7 true true).0 5

who_is_left : (one_left.curr_load ≡ 1) × (one_left.clients ≡ (6, tt) ∷ [])
unfolding accept set_max_load add_client TcpServer.add_close_cb client_stopped dele_client
who_is_left = (refl, refl)

Served-IsLoaded_example :
    (one_left.curr_load ≡ length one_left.clients)
    × Distinct ◌==◌ ==_iff one_left.clients
    × ((◌≡◌ {A = ℕ} 2 0) ⊎ (length one_left.clients ≤ 2))
    × Called one_left.clients one_left.close_cbs
unfolding accept set_max_load add_client TcpServer.add_close_cb
Served-IsLoaded_example = Served-IsLoaded 1 2 3 one_left (omega arith) (omega arith) (
    stopped 3 _ 5 (
      accepted 2 with_two 7 true true
        (accepted 1 _ 6 true true (accepted 0 _ 5 true true at_start refl) refl) refl))

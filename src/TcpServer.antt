-- ===== src/TcpServer.antt =====
-- tcp/tcpserver.go: the clients of a server, its load, and the table of the servers. A client and a
-- name are numbers; the mutexes make each call one step. An int32 is its 32 bits.
use mathlib.Core.Option
use cc_be_chat_test.Common.{
  ℕ, ◌+◌, ◌-◌, ◌^◌, Bool, true, false, not, ◌&&◌, ◌||◌, Option, none, some, List, [], ◌∷◌, map, u32,
  ltb, ◌==◌, if◌then◌else◌,
}
use cc_be_chat_test.Common.Maps.{lookup, insert, delete}
pub mod Load
pub mod Listening
pub mod Names
pub mod Serving

-- `close_cbs` are the clients that call deleClient when they stop.
pub record TcpServer : Type 0 where
  pub name : ℕ
  pub running : Bool
  pub client_num : ℕ
  pub curr_load : ℕ
  pub max_load : ℕ
  pub clients : List (ℕ × Unit {0})
  pub close_cbs : List (ℕ × Unit {0})

-- `a < b` for int32 values.
abbrev pub lt_int32 : ℕ → ℕ → Bool
lt_int32 a b = ltb (u32 (a + 2 ^ 31)) (u32 (b + 2 ^ 31))

unfoldable pub add_client : TcpServer → ℕ → TcpServer
add_client server client = record server {
  clients = insert ◌==◌ server.clients client tt;
  curr_load = u32 (server.curr_load + 1);
}

unfoldable pub dele_client : TcpServer → ℕ → TcpServer
dele_client server client = record server {
  clients = delete ◌==◌ server.clients client;
  curr_load = u32 (server.curr_load + (2 ^ 32 - 1));
}

-- The server, and the clients that were stopped; their callbacks are removed first.
unfoldable pub stop_clients : TcpServer → TcpServer × List ℕ
stop_clients server =
    (record server { clients = []; close_cbs = [] }, map (λ entry. entry.0) server.clients)

-- AddCloseCB, for the server's callback: a client that has stopped keeps none.
unfoldable pub add_close_cb : TcpServer → ℕ → Bool → TcpServer
add_close_cb server client client_running =
    if client_running
    then record server { close_cbs = insert ◌==◌ server.close_cbs client tt }
    else server

-- A round of startListener's loop in which a connection was accepted: whether the client could be
-- started, and whether it still runs when its callback is added. The connection is closed if the
-- answer is false.
unfoldable pub accept : TcpServer → ℕ → Bool → Bool → TcpServer × Bool
accept server client started client_running =
    let numbered = record server { client_num = server.client_num + 1 } in
    if not (lt_int32 0 server.max_load) || lt_int32 server.curr_load server.max_load
    then (if started
        then (add_close_cb (add_client numbered client) client client_running, true)
        else (numbered, false))
    else (numbered, false)

-- A client stops: its callback runs, if the server's was added. It stops only once.
unfoldable pub client_stopped : TcpServer → ℕ → TcpServer
client_stopped server client = elim (lookup ◌==◌ server.close_cbs client) [
  | some _ ↦ record (dele_client server client) { close_cbs = delete ◌==◌ server.close_cbs client }
  | none ↦ server
]

unfoldable pub set_max_load : TcpServer → ℕ → TcpServer
set_max_load server max_load = record server { max_load = max_load }

-- The table `servers`: NewTcpServer gives nothing if the name is taken.
abbrev pub Servers : Type 0
Servers = List (ℕ × TcpServer)

abbrev pub new_server : ℕ → TcpServer
new_server name = record {
  name = name;
  running = false;
  client_num = 0;
  curr_load = 0;
  max_load = 0;
  clients = [];
  close_cbs = [];
}

unfoldable pub new_tcp_server : Servers → ℕ → Servers × Option TcpServer
new_tcp_server servers name = elim (lookup ◌==◌ servers name) [
  | some _ ↦ (servers, none)
  | none ↦ let server = new_server name in (insert ◌==◌ servers name server, some server)
]

unfoldable pub delete_tcp_server : Servers → ℕ → Servers
delete_tcp_server servers name = delete ◌==◌ servers name

unfoldable pub get_tcp_server_by_name : Servers → ℕ → Option TcpServer
get_tcp_server_by_name servers name = lookup ◌==◌ servers name

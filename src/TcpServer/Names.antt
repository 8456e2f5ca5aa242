-- ===== src/TcpServer/Names.antt =====
-- The table of the servers by their names.
use cc_be_chat_test.Common.{ℕ, ◌≡◌, ◌≢◌, refl, Option, none, some, [], false, ==_iff, ◌==◌}
use cc_be_chat_test.Common.Maps.{lookup, insert, lookup-insert, lookup-insert_other, lookup-delete}
use cc_be_chat_test.TcpServer.{
  TcpServer, Servers, new_tcp_server, delete_tcp_server, get_tcp_server_by_name,
}

-- What NewTcpServer makes of a table in which the name is free: the name leads to the new server, which
-- can not be made a second time, until it is deleted; every other name leads where it did.
pub record Registered (servers : Servers) (name : ℕ) (made : Servers × Option TcpServer)
    : Type 0 where
  pub given :
      (server : TcpServer) × (made.1 ≡ some server)
      × (get_tcp_server_by_name made.0 name ≡ some server)
  pub taken : (new_tcp_server made.0 name).1 ≡ none
  pub others :
      (other : ℕ)
      → name ≢ other
      → get_tcp_server_by_name made.0 other ≡ get_tcp_server_by_name servers other
  pub freed : get_tcp_server_by_name (delete_tcp_server made.0 name) name ≡ none

abbrev fresh : ℕ → TcpServer
fresh name = record {
  name = name;
  running = false;
  client_num = 0;
  curr_load = 0;
  max_load = 0;
  clients = [];
  close_cbs = [];
}

-- When no server has the name, NewTcpServer makes one; GetTcpServerByName finds it, a second one of
-- the name is refused, other names are not touched, and the name is free again when it is deleted.
pub new_tcp_server-Registered :
    (servers : Servers) (name : ℕ)
    → get_tcp_server_by_name servers name ≡ none
    → Registered servers name (new_tcp_server servers name)
unfolding new_tcp_server get_tcp_server_by_name delete_tcp_server
new_tcp_server-Registered servers name free =
    let made : new_tcp_server servers name
        ≡ (insert ◌==◌ servers name (fresh name), some (fresh name)) =
      rw (new_tcp_server, free) refl in
    let there : lookup ◌==◌ (insert ◌==◌ servers name (fresh name)) name ≡ some (fresh name) =
      lookup-insert ◌==◌ ==_iff servers name (fresh name) in
    rw (made) record {
      given = (fresh name, refl, there);
      taken = rw (new_tcp_server, there) refl;
      others = λ other ne. lookup-insert_other ◌==◌ ==_iff servers name other (fresh name) ne;
      freed = lookup-delete ◌==◌ ==_iff (insert ◌==◌ servers name (fresh name)) name;
    }

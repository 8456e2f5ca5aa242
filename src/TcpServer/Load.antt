-- ===== src/TcpServer/Load.antt =====
-- The load of a server is the number of its clients.
use cc_be_chat_test.Common.{
  ℕ, suc, ◌+◌, ◌^◌, ◌≡◌, ◌≤◌, ◌<◌, refl, ap, ◌∙◌, Bool, true, Bool-cases, inl, inr, none, List, [],
  ◌∷◌, length, u32, ◌==◌, arith, not, ◌||◌,
}
use cc_be_chat_test.Common.Maps.{lookup, insert}
use cc_be_chat_test.TcpServer.{TcpServer, lt_int32, add_client, add_close_cb, accept}

-- Each client is listed once, and the load is their number, which a positive limit bounds.
pub record IsLoaded (server : TcpServer) : Type 0 where
  pub load : server.curr_load ≡ length server.clients
  pub limit : server.max_load < 2 ^ 31
  pub below : length server.clients < 2 ^ 31
  pub bounded : 0 < server.max_load → length server.clients ≤ server.max_load

length-insert_new :
    (m : List (ℕ × Unit {0})) (client : ℕ)
    → lookup ◌==◌ m client ≡ none
    → length (insert ◌==◌ m client tt) ≡ suc (length m)
length-insert_new [] client e = refl
length-insert_new ((key, old) ∷ m) client e = elim (Bool-cases (key == client)) [
  | inl same ↦ let g = rw same at e in absurd (ground arith)
  | inr other ↦ rw (other) (ap suc (length-insert_new m client (rw other at e)))
]

room-lt :
    (load limit : ℕ)
    → load < 2 ^ 31
    → limit < 2 ^ 31
    → 0 < limit
    → (not (lt_int32 0 limit) || lt_int32 load limit) ≡ true
    → load < limit
room-lt load limit h k positive room =
    let capped : lt_int32 0 limit ≡ true = ground arith in
    let small : lt_int32 load limit ≡ true = rw capped at room in ground arith

-- The server with one more client.
admitted-IsLoaded :
    (server admitted : TcpServer) (client : ℕ)
    → IsLoaded server
    → lookup ◌==◌ server.clients client ≡ none
    → length server.clients + 1 < 2 ^ 31
    → (not (lt_int32 0 server.max_load) || lt_int32 server.curr_load server.max_load) ≡ true
    → admitted.clients ≡ insert ◌==◌ server.clients client tt
    → admitted.curr_load ≡ u32 (server.curr_load + 1)
    → admitted.max_load ≡ server.max_load
    → IsLoaded admitted
admitted-IsLoaded server admitted client h new few room clients load limit =
    let len : length admitted.clients ≡ suc (length server.clients) =
      ap length clients ∙ length-insert_new server.clients client new in
    let below : server.curr_load < 2 ^ 31 = omega (arith, h.load, h.below) in
    record {
      load = omega (arith, load, h.load, len, few);
      limit = omega (arith, limit, h.limit);
      below = omega (arith, len, few);
      bounded = λ positive.
          let was_positive : 0 < server.max_load = omega (arith, positive, limit) in
          omega (
            arith,
            room-lt server.curr_load server.max_load below h.limit was_positive room,
            len,
            limit,
            h.load,
          );
    }

-- A server within its load that accepts a connection, of a client it does not have yet and with
-- fewer than 2 ^ 31 - 1 clients, stays within its load, whether there is room, whether the client
-- starts, and whether it still runs when its callback is added.
pub accept-IsLoaded :
    (server : TcpServer) (client : ℕ) (started client_running : Bool)
    → IsLoaded server
    → lookup ◌==◌ server.clients client ≡ none
    → length server.clients + 1 < 2 ^ 31
    → IsLoaded (accept server client started client_running).0
unfolding accept add_client add_close_cb
accept-IsLoaded server client started client_running h new few =
    elim (Bool-cases
      (not (lt_int32 0 server.max_load) || lt_int32 server.curr_load server.max_load)) [
        | inl room ↦ rw (room) (elim (Bool-cases started) [
          | inl up ↦ elim (Bool-cases client_running) [
            | inl runs ↦
                rw (up, runs) (admitted-IsLoaded server _ client h new few room refl refl refl)
            | inr stopped ↦
                rw (up, stopped) (admitted-IsLoaded server _ client h new few room refl refl refl)
          ]
          | inr down ↦
              rw (down)
                (record { load = h.load; limit = h.limit; below = h.below; bounded = h.bounded })
        ])
        | inr full ↦
            rw (full)
              (record { load = h.load; limit = h.limit; below = h.below; bounded = h.bounded })
      ]

-- ===== src/TcpServer/Serving.antt =====
-- A server while it runs: connections are accepted, and clients stop, in any order.
use native.Mathlib.Decide.{ℕ_discrete}
use cc_be_chat_test.Common.{
  ℕ, suc, ◌+◌, ◌^◌, ◌≡◌, ◌≢◌, ◌≤◌, ◌<◌, refl, Bool, Bool-cases, Option-cases, inl, inr, ◌⊎◌, Option,
  none, some, List, [], ◌∷◌, length, ◌==◌, ==_iff, arith, not, ◌||◌,
}
use cc_be_chat_test.Common.Maps.{
  lookup, insert, delete, lookup-insert, lookup-insert_other, lookup-delete, lookup-delete_other,
}
use cc_be_chat_test.Common.Distinct.{Distinct, insert-Distinct, delete-Distinct, length-delete}
use cc_be_chat_test.TcpServer.{
  TcpServer, lt_int32, add_client, dele_client, add_close_cb, accept, client_stopped, new_server,
  set_max_load,
}
use cc_be_chat_test.TcpServer.Load.{IsLoaded, accept-IsLoaded}

-- The states of a server with a limit, after so many connections; each is a new client.
pub data Served (name limit : ℕ) : ℕ → TcpServer → Type 0 where
  at_start : Served name limit 0 (set_max_load (new_server name) limit)
  accepted :
      (n : ℕ) (server : TcpServer) (client : ℕ) (started client_running : Bool)
      → Served name limit n server
      → lookup ◌==◌ server.clients client ≡ none
      → Served name limit (suc n) (accept server client started client_running).0
  stopped :
      (n : ℕ) (server : TcpServer) (client : ℕ)
      → Served name limit n server
      → Served name limit n (client_stopped server client)

abbrev pub Clients : Type 0
Clients = List (ℕ × Unit {0})

-- Each client with a callback is a client.
abbrev pub Called : Clients → Clients → Type 0
Called clients close_cbs = (c : ℕ) → lookup ◌==◌ close_cbs c ≢ none → lookup ◌==◌ clients c ≢ none

length-insert : (m : Clients) (k : ℕ) → length (insert ◌==◌ m k tt) ≤ suc (length m)
length-insert [] k = omega arith
length-insert ((key, old) ∷ m) k = elim (Bool-cases (key == k)) [
  | inl same ↦ rw (same) (omega arith)
  | inr other ↦ rw (other) (omega (arith, length-insert m k))
]

record Shape (limit n : ℕ) (server : TcpServer) : Type 0 where
  distinct : Distinct ◌==◌ ==_iff server.clients
  called : Called server.clients server.close_cbs
  fewer : length server.clients ≤ n
  limited : server.max_load ≡ limit

known : (o : Option (Unit {0})) → o ≡ some tt → o ≢ none
known o e none_e = absurd (cc)

insert-Known :
    (m : Clients) (k c : ℕ) → lookup ◌==◌ m c ≢ none → lookup ◌==◌ (insert ◌==◌ m k tt) c ≢ none
insert-Known m k c h = elim (ℕ_discrete k c) [
  | yes same ↦ rw (← same) (known _ (lookup-insert ◌==◌ ==_iff m k tt))
  | no differ ↦ rw (lookup-insert_other ◌==◌ ==_iff m k c tt differ) h
]

-- A client is added to the clients, and its callback to the callbacks or not.
insert-Called :
    (clients close_cbs : Clients) (client : ℕ)
    → Called clients close_cbs
    → Called (insert ◌==◌ clients client tt) close_cbs
      × Called (insert ◌==◌ clients client tt) (insert ◌==◌ close_cbs client tt)
insert-Called clients close_cbs client h = (
  λ c has. insert-Known clients client c (h c has),
  λ c has. elim (ℕ_discrete client c) [
    | yes same ↦ rw (← same) (known _ (lookup-insert ◌==◌ ==_iff clients client tt))
    | no differ ↦
        insert-Known clients client c
          (h c (rw (lookup-insert_other ◌==◌ ==_iff close_cbs client c tt differ) at has))
  ],
)

delete-Called :
    (clients close_cbs : Clients) (client : ℕ)
    → Called clients close_cbs
    → Called (delete ◌==◌ clients client) (delete ◌==◌ close_cbs client)
delete-Called clients close_cbs client h c has = elim (ℕ_discrete client c) [
  | yes same ↦ absurd (has (rw (← same) (lookup-delete ◌==◌ ==_iff close_cbs client)))
  | no differ ↦
      rw (lookup-delete_other ◌==◌ ==_iff clients client c differ)
        (h c (rw (lookup-delete_other ◌==◌ ==_iff close_cbs client c differ) at has))
]

accept-Shape :
    (limit n : ℕ) (server : TcpServer) (client : ℕ) (started client_running : Bool)
    → Shape limit n server
    → Shape limit (suc n) (accept server client started client_running).0
unfolding accept add_client add_close_cb
accept-Shape limit n server client started client_running h =
    let unchanged : Shape limit (suc n) (record server { client_num = server.client_num + 1 }) =
      record {
        distinct = h.distinct;
        called = h.called;
        fewer = omega (arith, h.fewer);
        limited = h.limited;
      } in
    let more = insert-Distinct ◌==◌ ==_iff server.clients client tt h.distinct in
    let called = insert-Called server.clients server.close_cbs client h.called in
    let count : length (insert ◌==◌ server.clients client tt) ≤ suc n =
      omega (arith, h.fewer, length-insert server.clients client) in
    elim (Bool-cases
      (not (lt_int32 0 server.max_load) || lt_int32 server.curr_load server.max_load)) [
        | inl room ↦ elim (Bool-cases started) [
          | inl up ↦ elim (Bool-cases client_running) [
            | inl runs ↦
                rw (room, up, runs)
                  (record {
                    distinct = more;
                    called = called.1;
                    fewer = count;
                    limited = h.limited;
                  })
            | inr ended ↦
                rw (room, up, ended)
                  (record {
                    distinct = more;
                    called = called.0;
                    fewer = count;
                    limited = h.limited;
                  })
          ]
          | inr down ↦ rw (room, down) unchanged
        ]
        | inr full ↦ rw (full) unchanged
      ]

-- A client with a callback stops.
module _ (limit n : ℕ) (server : TcpServer) (client : ℕ) (h : Shape limit n server)
    (loaded : IsLoaded server) where
  removed-Shape :
      lookup ◌==◌ server.clients client ≢ none
      → let after : TcpServer = record (dele_client server client) {
        close_cbs = delete ◌==◌ server.close_cbs client;
      } in
        Shape limit n after × IsLoaded after
  unfolding dele_client
  removed-Shape member =
      let less = length-delete ◌==◌ ==_iff server.clients client h.distinct member in
      (
        record {
          distinct = delete-Distinct ◌==◌ ==_iff server.clients client h.distinct;
          called = delete-Called server.clients server.close_cbs client h.called;
          fewer = omega (arith, h.fewer, less);
          limited = h.limited;
        },
        record {
          load = omega (arith, less, loaded.load, loaded.below);
          limit = loaded.limit;
          below = omega (arith, less, loaded.below);
          bounded = λ positive. omega (arith, loaded.bounded positive, less);
        },
      )

  stopped-Shape :
      Shape limit n (client_stopped server client) × IsLoaded (client_stopped server client)
  unfolding client_stopped
  stopped-Shape = elim (Option-cases (lookup ◌==◌ server.close_cbs client)) [
    | inl none_added ↦ rw (client_stopped, none_added) (h, loaded)
    | inr (tt, e) ↦
        rw (client_stopped, e)
          (removed-Shape (h.called client (known (lookup ◌==◌ server.close_cbs client) e)))
  ]

served-Shape :
    (name limit n : ℕ) (server : TcpServer)
    → limit < 2 ^ 31
    → n < 2 ^ 31
    → Served name limit n server
    → Shape limit n server × IsLoaded server
unfolding set_max_load
served-Shape name limit n server hl hn at_start = (
  record {
    distinct = tt;
    called = λ c has. absurd (has refl);
    fewer = omega arith;
    limited = refl;
  },
  record { load = refl; limit = hl; below = omega arith; bounded = λ h. omega arith },
)
served-Shape name limit n server hl hn (accepted k before client started client_running r new) =
    let (shape, loaded) = served-Shape name limit k before hl (omega (arith, hn)) r in
    (
      accept-Shape limit k before client started client_running shape,
      accept-IsLoaded before client started client_running loaded new
          (omega (arith, shape.fewer, hn)),
    )
served-Shape name limit n server hl hn (stopped k before client r) =
    let (shape, loaded) = served-Shape name limit k before hl hn r in
    stopped-Shape limit k before client shape loaded

-- A server with a limit below 2 ^ 31 that has accepted fewer than 2 ^ 31 connections, while clients
-- stopped in any order, started or not, and with or without the server's callback: its load is the
-- number of its clients, no client is listed twice, a limit that is not 0 bounds the number, and each
-- client that has the callback is listed.
pub Served-IsLoaded :
    (name limit n : ℕ) (server : TcpServer)
    → limit < 2 ^ 31
    → n < 2 ^ 31
    → Served name limit n server
    → (server.curr_load ≡ length server.clients)
      × Distinct ◌==◌ ==_iff server.clients
      × ((limit ≡ 0) ⊎ (length server.clients ≤ limit))
      × Called server.clients server.close_cbs
Served-IsLoaded name limit n server hl hn r =
    let (shape, loaded) = served-Shape name limit n server hl hn r in
    (
      loaded.load,
      shape.distinct,
      elim (ℕ_discrete limit 0) [
        | yes none_set ↦ inl none_set
        | no positive ↦
            let at_least : 1 ≤ limit = ground (arith, positive) in
            inr (
              omega (arith, loaded.bounded (omega (arith, at_least, shape.limited)), shape.limited))
      ],
      shape.called,
    )

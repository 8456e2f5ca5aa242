-- ===== src/TcpClient/Queue.antt =====
-- Whatever is queued is written in order, once, and nothing else is.
use cc_be_chat_test.Common.{
  ℕ, ◌≤◌, ◌+◌, ◌≡◌, ◌≢◌, refl, ap, ap₂, sym, ◌∙◌, Bool, Bool-cases, inl, inr, List, [], ◌∷◌, ◌++◌,
  length, ltb, arith, length-append,
}
use cc_be_chat_test.TcpClient.{
  Fate, queued, timeout, dropped, stopped, TcpClient, new_tcp_client, send_async, write_one, stop,
}

module _ {V : Type 0} (size : ℕ) where
  -- The steps of a client, in any order, and the values that were queued on the way, in order.
  pub data Steps (reconnect : Bool) : TcpClient V → List V → Type 0 where
    begin : Steps reconnect (new_tcp_client reconnect) []
    by_queueing :
        (client client' : TcpClient V) (vs : List V) (has_cb : Bool) (v : V)
        → Steps reconnect client vs
        → send_async size has_cb v client ≡ (client', queued)
        → Steps reconnect client' (vs ++ (v ∷ []))
    by_refusing :
        (client client' : TcpClient V) (vs : List V) (has_cb : Bool) (v : V) (fate : Fate)
        → Steps reconnect client vs
        → send_async size has_cb v client ≡ (client', fate)
        → fate ≢ queued
        → Steps reconnect client' vs
    by_writing :
        (client : TcpClient V) (vs : List V)
        → Steps reconnect client vs
        → Steps reconnect (write_one client) vs
    by_stopping :
        (client : TcpClient V) (vs : List V)
        → Steps reconnect client vs
        → Steps reconnect (stop client) vs

  append_assoc : (xs ys zs : List V) → (xs ++ ys) ++ zs ≡ xs ++ (ys ++ zs)
  append_assoc [] ys zs = refl
  append_assoc (x ∷ xs) ys zs = ap (◌∷◌ x) (append_assoc xs ys zs)

  -- What SendAsync does to the queue, by its answer.
  abbrev Sent : TcpClient V → V → TcpClient V × Fate → Type 0
  Sent client v (client', queued) =
      (client'.queue ≡ client.queue ++ (v ∷ []))
      × (client'.written ≡ client.written)
      × (length client.queue + 1 ≤ size)
  Sent client v (client', timeout) =
      (client'.queue ≡ client.queue) × (client'.written ≡ client.written)
  Sent client v (client', dropped) =
      (client'.queue ≡ client.queue) × (client'.written ≡ client.written)
  Sent client v (client', stopped) =
      (client'.queue ≡ client.queue) × (client'.written ≡ client.written)

  send_async-Sent :
      (client : TcpClient V) (has_cb : Bool) (v : V)
      → Sent client v (send_async size has_cb v client)
  unfolding send_async
  send_async-Sent client has_cb v = elim (Bool-cases client.running) [
    | inl up ↦ elim (Bool-cases client.has_queue) [
      | inl opened ↦ elim (Bool-cases (ltb (length client.queue) size)) [
        | inl room ↦
            let fits : length client.queue + 1 ≤ size = ground arith in
            rw (up, opened, room) (refl, refl, fits)
        | inr full ↦ rw (up, opened, full) (refl, refl)
      ]
      | inr closed ↦ rw (up, closed) (refl, refl)
    ]
    | inr down ↦ rw (down) (refl, refl)
  ]

  refused_lem :
      (client client' : TcpClient V) (v : V) (fate : Fate)
      → Sent client v (client', fate)
      → fate ≢ queued
      → (client'.queue ≡ client.queue) × (client'.written ≡ client.written)
  refused_lem client client' v queued s ne = absurd (ne refl)
  refused_lem client client' v timeout s ne = s
  refused_lem client client' v dropped s ne = s
  refused_lem client client' v stopped s ne = s

  -- What is written and what waits, in this order, and a queue that does not overflow.
  abbrev pub InOrder : TcpClient V → List V → Type 0
  InOrder client vs = (client.written ++ client.queue ≡ vs) × (length client.queue ≤ size)

  write_one-InOrder_at :
      (client : TcpClient V) (vs queue : List V)
      → client.queue ≡ queue
      → InOrder client vs
      → InOrder (write_one client) vs
  unfolding write_one
  write_one-InOrder_at client vs [] e h =
      let step : write_one client ≡ client =
        rw (write_one, e) (λ i. record client { queue = e i }) in
      rw (step) h
  write_one-InOrder_at client vs (v ∷ rest) e h =
      let step : write_one client
          ≡ record client { queue = rest; written = client.written ++ (v ∷ []) } =
        rw (write_one, e) refl in
      let (order, room) = rw e at h in
      rw (step) (append_assoc client.written (v ∷ []) rest ∙ order, omega (arith, room))

  stop-InOrder : (client : TcpClient V) (vs : List V) → InOrder client vs → InOrder (stop client) vs
  unfolding stop
  stop-InOrder client vs h = elim (Bool-cases client.running) [
    | inl up ↦ elim (Bool-cases client.enable_reconnect) [
      | inl again ↦ rw (up, again) h
      | inr once ↦ rw (up, once) h
    ]
    | inr down ↦ rw (down) h
  ]

  -- However SendAsync, the writer and Stop interleave: what was written, followed by what still
  -- waits, is what SendAsync answered with a success for a waiting value, in that order, and no more
  -- than `size` values wait.
  pub queue_is_fifo :
      (reconnect : Bool) (client : TcpClient V) (vs : List V)
      → Steps reconnect client vs
      → (client.written ++ client.queue ≡ vs) × (length client.queue ≤ size)
  unfolding new_tcp_client
  queue_is_fifo reconnect client vs begin = (refl, omega arith)
  queue_is_fifo reconnect client' vs' (by_queueing client _ vs has_cb v steps e) =
      let (order, room) = queue_is_fifo reconnect client vs steps in
      let (queue, written, fits) = rw e at (send_async-Sent client has_cb v) in
      (
        ap₂ ◌++◌ written queue
            ∙ sym (append_assoc client.written client.queue (v ∷ []))
            ∙ ap (λ xs. xs ++ (v ∷ [])) order,
        omega (arith, ap length queue, length-append client.queue (v ∷ []), fits),
      )
  queue_is_fifo reconnect client' vs (by_refusing client _ _ has_cb v fate steps e ne) =
      let (order, room) = queue_is_fifo reconnect client vs steps in
      let (queue, written) =
        refused_lem client client' v fate (rw e at (send_async-Sent client has_cb v)) ne in
      (ap₂ ◌++◌ written queue ∙ order, omega (arith, ap length queue, room))
  queue_is_fifo reconnect _ vs (by_writing client _ steps) =
      write_one-InOrder_at client vs client.queue refl (queue_is_fifo reconnect client vs steps)
  queue_is_fifo reconnect _ vs (by_stopping client _ steps) =
      stop-InOrder client vs (queue_is_fifo reconnect client vs steps)

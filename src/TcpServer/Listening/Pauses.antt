-- ===== src/TcpServer/Listening/Pauses.antt =====
-- The pauses between failed accepts.
use cc_be_chat_test.Common.{
  ℕ, zero, suc, ◌≤◌, ◌<◌, All, ◌≡◌, refl, ap, ◌∙◌, Bool, true, false, List, [], ◌∷◌, arith, by_test,
  not, ◌||◌, if◌then◌else◌,
}
use cc_be_chat_test.TcpServer.{TcpServer, accept, add_client, add_close_cb, lt_int32}
use cc_be_chat_test.TcpServer.Listening.{
  Answer, connection, temporary, broken, stopping, next_delay, admit, listen,
}

-- The pauses that `n` errors in a row make, from the pause of before.
abbrev pub pauses : ℕ → ℕ → List ℕ
pauses zero delay = []
pauses (suc n) delay = next_delay delay ∷ pauses n (next_delay delay)

-- How many errors that pass there are before the listener breaks or the server is stopped.
abbrev pub failures : List Answer → ℕ
failures [] = 0
failures (connection client started runs ∷ answers) = failures answers
failures (temporary ∷ answers) = suc (failures answers)
failures (broken ∷ answers) = 0
failures (stopping ∷ answers) = 0

-- No connection stops a server.
accept-running :
    (server : TcpServer) (client : ℕ) (started runs : Bool)
    → (accept server client started runs).0.running ≡ server.running
unfolding accept add_client add_close_cb
accept-running server client started runs =
    let same = λ (r : TcpServer × Bool). r.0.running ≡ server.running in
    by_test same (not (lt_int32 0 server.max_load) || lt_int32 server.curr_load server.max_load)
      (λ room.
        by_test same started
          (λ e.
            by_test (λ (s : TcpServer). s.running ≡ server.running) runs (λ e'. refl) (λ e'. refl))
          (λ e. refl))
      (λ full. refl)

admit-running :
    (has_delegate : Bool) (server : TcpServer) (client : ℕ) (started runs : Bool)
    → (admit has_delegate server client started runs).running ≡ server.running
admit-running true server client started runs = accept-running server client started runs
admit-running false server client started runs = refl

ends_if :
    (running : Bool) (rest : TcpServer × List ℕ) (server : TcpServer)
    → running ≡ false
    → (if running then rest else (server, [])).1 ≡ []
ends_if true rest server r = absurd (ground (arith, r))
ends_if false rest server r = refl

-- A server that was stopped takes no more answers.
listen_stopped :
    (has_delegate : Bool) (answers : List Answer) (server : TcpServer) (delay : ℕ)
    → server.running ≡ false
    → (listen has_delegate answers server delay).1 ≡ []
unfolding listen
listen_stopped has_delegate [] server delay r = refl
listen_stopped has_delegate (connection client started runs ∷ answers) server delay r =
    ends_if server.running
      (listen has_delegate answers (admit has_delegate server client started runs) delay) server r
listen_stopped has_delegate (temporary ∷ answers) server delay r =
    ends_if server.running
      (
        (listen has_delegate answers server (next_delay delay)).0,
        next_delay delay ∷ (listen has_delegate answers server (next_delay delay)).1,
      )
      server r
listen_stopped has_delegate (broken ∷ answers) server delay r = refl
listen_stopped has_delegate (stopping ∷ answers) server delay r =
    ends_if server.running (listen has_delegate answers (record server { running = false }) delay)
      server r

-- The pauses of a server that runs are those of as many errors in a row as its listener gives before it
-- breaks or the server is stopped: a connection in between does not set the pause back.
pub listen-pauses :
    (has_delegate : Bool) (answers : List Answer) (server : TcpServer) (delay : ℕ)
    → server.running ≡ true
    → (listen has_delegate answers server delay).1 ≡ pauses (failures answers) delay
unfolding listen
listen-pauses has_delegate [] server delay r = refl
listen-pauses has_delegate (connection client started runs ∷ answers) server delay r =
    by_test (λ (ended : TcpServer × List ℕ). ended.1 ≡ pauses (failures answers) delay)
      server.running
      (λ e.
        listen-pauses has_delegate answers (admit has_delegate server client started runs) delay
          (admit-running has_delegate server client started runs ∙ r))
      (λ stopped. absurd (ground (arith, stopped, r)))
listen-pauses has_delegate (temporary ∷ answers) server delay r =
    by_test
      (λ (ended : TcpServer × List ℕ). ended.1 ≡ pauses (failures (temporary ∷ answers)) delay)
      server.running
      (λ e.
        ap (◌∷◌ (next_delay delay))
          (listen-pauses has_delegate answers server (next_delay delay) r))
      (λ stopped. absurd (ground (arith, stopped, r)))
listen-pauses has_delegate (broken ∷ answers) server delay r = refl
listen-pauses has_delegate (stopping ∷ answers) server delay r =
    by_test (λ (ended : TcpServer × List ℕ). ended.1 ≡ []) server.running
      (λ e. listen_stopped has_delegate answers (record server { running = false }) delay refl)
      (λ stopped. refl)

next_delay-bounded : (delay : ℕ) → (0 < next_delay delay) × (next_delay delay ≤ 1000)
next_delay-bounded delay = (ground arith, ground arith)

pauses-bounded : (n delay : ℕ) → All (λ pause. (0 < pause) × (pause ≤ 1000)) (pauses n delay)
pauses-bounded zero delay = tt
pauses-bounded (suc n) delay = (next_delay-bounded delay, pauses-bounded n (next_delay delay))

-- The loop of a server that runs never pauses for longer than a second, and never for no time, before it
-- accepts again.
pub listen-bounded :
    (has_delegate : Bool) (answers : List Answer) (server : TcpServer) (delay : ℕ)
    → server.running ≡ true
    → All (λ pause. (0 < pause) × (pause ≤ 1000)) (listen has_delegate answers server delay).1
listen-bounded has_delegate answers server delay r =
    rw (listen-pauses has_delegate answers server delay r) (pauses-bounded (failures answers) delay)

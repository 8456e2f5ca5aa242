-- ===== src/TcpServer/Listening.antt =====
-- tcp/tcpserver.go: startListener with its pauses, Start, Stop and Serve's setting of the timeout. What
-- the listener answers is an argument; a duration is a number of milliseconds.
use cc_be_chat_test.Common.{
  ℕ, zero, suc, ◌+◌, ◌-◌, ◌*◌, Bool, true, false, not, ◌&&◌, ◌||◌, Option, none, some, List, [],
  ◌∷◌, ◌++◌, length, map, ◌≡◌, refl, ap, ltb, ◌==◌, if◌then◌else◌,
}
use cc_be_chat_test.Delegate.Settings.{Settings, init, set_server}
use cc_be_chat_test.TcpServer.{TcpServer, Servers, accept, stop_clients, delete_tcp_server}
pub mod Pauses

-- An answer of AcceptTCP: a connection for the client of that number, whether that could be started
-- and runs when its callback is added; an error that passes; another error. `stopping` is no answer:
-- Stop, which another goroutine calls, has set Running to false.
pub data Answer : Type 0 where
  connection : ℕ → Bool → Bool → Answer
  temporary : Answer
  broken : Answer
  stopping : Answer

-- The next pause: 5 ms, then twice the last, at most a second.
abbrev pub next_delay : ℕ → ℕ
next_delay delay =
    let longer = if delay == 0 then 5 else delay * 2 in if ltb 1000 longer then 1000 else longer

-- A connection, if there is a delegate to make its client.
abbrev pub admit : Bool → TcpServer → ℕ → Bool → Bool → TcpServer
admit has_delegate server client started runs =
    if has_delegate then (accept server client started runs).0 else server

-- The loop of startListener, with the pauses that it made; without answers left it waits for one.
unfoldable pub listen : Bool → List Answer → TcpServer → ℕ → TcpServer × List ℕ
listen has_delegate [] server delay = (server, [])
listen has_delegate (connection client started runs ∷ answers) server delay =
    let rest = listen has_delegate answers (admit has_delegate server client started runs) delay in
    if server.running then rest else (server, [])
listen has_delegate (temporary ∷ answers) server delay =
    let rest = listen has_delegate answers server (next_delay delay) in
    if server.running then (rest.0, next_delay delay ∷ rest.1) else (server, [])
listen has_delegate (broken ∷ answers) server delay = (server, [])
listen has_delegate (stopping ∷ answers) server delay =
    let rest = listen has_delegate answers (record server { running = false }) delay in
    if server.running then rest else (server, [])

-- A server in its program: the wait group, the table of servers, whether it has a listener and a
-- delegate, the clients that were stopped, how often OnServerStop was called, whether
-- the timer of a timeout runs, and whether the program has ended.
pub record Running : Type 0 where
  pub server : TcpServer
  pub waiting : ℕ
  pub servers : Servers
  pub has_listener : Bool
  pub has_delegate : Bool
  pub stop_timeout : ℕ
  pub stopped : List ℕ
  pub stops : ℕ
  pub exit_timer : Bool
  pub exited : Bool

-- SetDelegate: the delegate is made ready, and knows the server.
unfoldable pub set_delegate : {W : Type 0} → Settings W → Running → Settings W × Running
set_delegate dele r = (set_server (init dele) r.server.name, record r { has_delegate = true })

-- startListener: the address resolves, the listener can be made, and what it answers.
unfoldable pub start_listener : Bool → Bool → List Answer → Running → Running
start_listener resolves listens answers r =
    let done = (listen r.has_delegate answers (record r.server { running = true }) 0).0 in
    if not resolves
    then r
    else if not listens
    then record r { has_listener = false }
    else record r { has_listener = true; server = done }

-- Start: the name is free again at the end.
unfoldable pub start : Bool → Bool → List Answer → Running → Running
start resolves listens answers r =
    let begun : Running = record r {
      server = record r.server { running = true };
      waiting = r.waiting + 1;
    } in
    let ended = start_listener resolves listens answers begun in
    if r.server.running
    then r
    else record ended { servers = delete_tcp_server ended.servers r.server.name }

-- Stop up to the wait for the group; the timer of the timeout is started.
unfoldable pub begin_stop : Running → Running × Bool
begin_stop r =
    if r.server.running
    then (
      record r {
        server = record r.server { running = false };
        waiting = r.waiting - 1;
        exit_timer = r.exit_timer || ltb 0 r.stop_timeout;
      },
      true,
    )
    else (r, false)

-- Stop behind the wait, which ends when the group is at 0.
unfoldable pub end_stop : Running → Running
end_stop r =
    let stopped = stop_clients r.server in
    record r {
      server = stopped.0;
      stopped = r.stopped ++ stopped.1;
      stops = if r.has_delegate then r.stops + 1 else r.stops;
    }

unfoldable pub stop_with_timeout : ℕ → Running → Running × Bool
stop_with_timeout to r = begin_stop (record r { stop_timeout = to })

-- Stop, and whether it returns. `waited` is whether the group comes to 0 while Stop waits for it; else
-- Stop waits on, and only the timer of the timeout, if there is one, ends the program.
unfoldable pub stop : Bool → Running → Running × Bool
stop waited r =
    let begun = begin_stop r in
    if not begun.1
    then (begun.0, true)
    else if waited
    then (end_stop begun.0, true)
    else (begun.0, false)

-- The timer that Stop starts, which nothing stops: a tenth of a second later the program ends.
unfoldable pub exit_timer_fires : Running → Running
exit_timer_fires r = if r.exit_timer then record r { exited = true } else r

pub data Signal : Type 0 where
  sigterm : Signal
  sigint : Signal
  other_signal : Signal

-- What Serve does with a signal: two of them stop the server, and when Stop returns the program ends.
-- A program that has ended gets no signal.
unfoldable pub stop_and_exit : Bool → Running → Running
stop_and_exit waited r =
    let stopped = stop waited r in
    if stopped.1 then record stopped.0 { exited = true } else stopped.0

unfoldable pub on_signal : Bool → Signal → Running → Running
on_signal waited sigterm r = if r.exited then r else stop_and_exit waited r
on_signal waited sigint r = if r.exited then r else stop_and_exit waited r
on_signal waited other_signal r = r

-- Serve before it waits for signals, besides the goroutine of Start: the timeout, if one is given.
unfoldable pub serve : Option ℕ → Running → Running
serve none r = r
serve (some to) r = record r { stop_timeout = to }

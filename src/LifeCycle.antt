-- ===== src/LifeCycle.antt =====
-- ftp/server.go: the listeners and connections that a server tracks, the loop of `serve`, `Close`
-- and `Shutdown`. Each function here is one critical section of the server's mutex. What closing a
-- listener or a connection returns is a parameter.
pub mod Run
pub mod Delay
pub mod Conns
pub mod Shutting
pub mod Drain
pub mod Tracked
mod Tests
use s3ftpgateway.Base.{
  ℕ, ◌*◌, Bool, true, false, not, Option, none, some, List, [], ◌∷◌, ◌++◌, map, ltb, ◌==◌,
  if◌then◌else◌, Bytes,
}
use s3ftpgateway.Session.{Session}
use s3ftpgateway.Session.Run.{new_conn, shutdown, close}

-- A tracked `*ServerConn`, with its flag `executing`.
pub record Connection (S : Type 0) : Type 0 where
  pub name : ℕ
  pub executing : Bool
  pub session : Session S

-- `doneChan`: nil, open or closed.
pub data DoneChan : Type 0 where
  chan_nil chan_open chan_closed : DoneChan

-- The fields of `Server` under its mutex, and its flag `shuttingDown`. A listener is the number of
-- its pointer, and so is the name of a connection. `closed_listeners` and `gone` are the listeners
-- that were closed and the connections that are not tracked any more, as they left.
pub record Life (S : Type 0) : Type 0 where
  pub shutting_down : Bool
  pub listeners : List ℕ
  pub conns : List (Connection S)
  pub done : DoneChan
  pub closed_listeners : List ℕ
  pub gone : List (Connection S)

abbrev pub is_closed : DoneChan → Bool
is_closed chan_closed = true
is_closed _ = false

-- `a` or, where it is nil, `b`.
abbrev first_error : Option Bytes → Option Bytes → Option Bytes
first_error none b = b
first_error (some e) b = some e

unfoldable pub without : ℕ → List ℕ → List ℕ
without n [] = []
without n (m ∷ ms) = let rest = without n ms in if m == n then rest else m ∷ rest

-- What a call of `Accept` gives.
pub data Accepted : Type 0 where
  connected : ℕ → Accepted
  temporary_error : Accepted
  accept_error : Bytes → Accepted

pub data ServeError : Type 0 where
  server_closed : ServeError
  accept_failed : Bytes → ServeError

-- The loop of `serve` goes on, with the delay for the next failure, or `serve` returns.
pub data Served : Type 0 where
  continues : ℕ → Served
  returns : ServeError → Served

-- `tempDelay` behind a failure, in milliseconds.
unfoldable pub next_delay : ℕ → ℕ
next_delay d = let t = if d == 0 then 5 else d * 2 in if ltb 1000 t then 1000 else t

module _ {S : Type 0} where
  -- The connections of the name, and the others.
  unfoldable pub named : ℕ → List (Connection S) → List (Connection S)
  named n [] = []
  named n (c ∷ cs) = let rest = named n cs in if c.name == n then c ∷ rest else rest

  unfoldable pub others : ℕ → List (Connection S) → List (Connection S)
  others n [] = []
  others n (c ∷ cs) = let rest = others n cs in if c.name == n then rest else c ∷ rest

  -- `ServerConn.Close` and `ServerConn.shutdown` of a connection.
  abbrev pub close_conn : Connection S → Connection S
  close_conn c = record c { session = close c.session }

  abbrev pub shutdown_conn : Connection S → Connection S
  shutdown_conn c = record c { session = shutdown c.executing c.session }

  -- `getDoneChanLocked`
  abbrev pub get_done_chan : Life S → Life S
  get_done_chan s = record s { done = elim s.done [ chan_nil ↦ chan_open | ch ↦ ch ] }

  -- `closeDoneChanLocked`
  abbrev pub close_done_chan : Life S → Life S
  close_done_chan s = record s { done = chan_closed }

  -- `trackListener`
  unfoldable pub track_listener : ℕ → Bool → Life S → Bool × Life S
  unfolding without
  track_listener ln true s =
      if s.shutting_down
      then (false, s)
      else (true, record s { listeners = ln ∷ without ln s.listeners })
  track_listener ln false s = (true, record s { listeners = without ln s.listeners })

  -- `trackConn`
  unfoldable pub track_conn : Connection S → Bool → Life S → Bool × Life S
  track_conn c true s =
      if s.shutting_down then (false, s) else (true, record s { conns = c ∷ others c.name s.conns })
  track_conn c false s = (true, record s { conns = others c.name s.conns })

  -- `Close` of a listener
  abbrev pub close_listener : ℕ → Life S → Life S
  close_listener ln s = record s { closed_listeners = ln ∷ s.closed_listeners }

  -- The beginning of `serve`: a server that is shutting down closes the listener.
  unfoldable pub serve_begin : ℕ → Life S → Option ServeError × Life S
  serve_begin ln s =
      let (ok, s') = track_listener ln true s in
      if ok then (none, s') else (some server_closed, close_listener ln s')

  -- The deferred calls of `serve`.
  unfoldable pub serve_end : ℕ → Life S → Life S
  serve_end ln s = close_listener ln (track_listener ln false s).1

  -- A connection whose goroutine has started, and one that has not.
  abbrev pub started : ℕ → S → Connection S
  started n store = record { name = n; executing = false; session = new_conn store }

  abbrev pub unstarted : ℕ → S → Connection S
  unstarted n store = record {
    name = n;
    executing = false;
    session = record (new_conn store) { replies = [] };
  }

  -- One round of the loop of `serve`; a connection starts with the store.
  unfoldable pub serve_round : S → ℕ → Accepted → Life S → Served × Life S
  serve_round store delay (connected n) s =
      let (ok, s') = track_conn (started n store) true s in
      if ok
      then (continues 0, s')
      else (returns server_closed, record s' { gone = close_conn (unstarted n store) ∷ s'.gone })
  serve_round store delay temporary_error s =
      let s' = get_done_chan s in
      (if is_closed s'.done then returns server_closed else continues (next_delay delay), s')
  serve_round store delay (accept_error e) s =
      let s' = get_done_chan s in
      (if is_closed s'.done then returns server_closed else returns (accept_failed e), s')

  -- The deferred calls of the goroutine of a connection: `Close`, and out of the table. What happens
  -- between the two is what happens to a connection that was closed before.
  unfoldable pub conn_end : ℕ → Life S → Life S
  conn_end n s = record s {
    conns = others n s.conns;
    gone = map close_conn (named n s.conns) ++ s.gone;
  }

  module _ (listener_error : ℕ → Option Bytes) (conn_error : Session S → Option Bytes) where
    listeners_error : List ℕ → Option Bytes
    listeners_error [] = none
    listeners_error (ln ∷ lns) = first_error (listener_error ln) (listeners_error lns)

    -- `closeListenersLocked`
    unfoldable pub close_listeners : Life S → Option Bytes × Life S
    unfolding listeners_error
    close_listeners s = (
      listeners_error s.listeners,
      record s { listeners = []; closed_listeners = s.listeners ++ s.closed_listeners },
    )

    conns_error : List (Connection S) → Option Bytes
    conns_error [] = none
    conns_error (c ∷ cs) = first_error (conn_error c.session) (conns_error cs)

    -- `closeConnsLocked`
    unfoldable pub close_conns : Life S → Option Bytes × Life S
    unfolding conns_error
    close_conns s =
        (conns_error s.conns, record s { conns = []; gone = map close_conn s.conns ++ s.gone })

    -- `shutdownConnsLocked`; the callers drop its error.
    abbrev pub shutdown_conns : Life S → Life S
    shutdown_conns s = record s { conns = map shutdown_conn s.conns }

    -- `Close`, behind `s.shuttingDown.setTrue()`.
    unfoldable pub close_locked : Life S → Life S
    close_locked s = (close_conns (close_listeners (close_done_chan s)).1).1

    -- The first critical section of `Shutdown`, behind `s.shuttingDown.setTrue()`.
    unfoldable pub shutdown_locked : Life S → Life S
    shutdown_locked s = shutdown_conns (close_listeners (close_done_chan s)).1

  abbrev pub set_shutting_down : Life S → Life S
  set_shutting_down s = record s { shutting_down = true }

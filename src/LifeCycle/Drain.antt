-- ===== src/LifeCycle/Drain.antt =====
-- A server of ftp/server.go behind `Close` and `Shutdown`.
use s3ftpgateway.Base.{
  ℕ, ◌≡◌, ◌≢◌, refl, sym, ap, ◌∙◌, true, Option, List, [], ◌∷◌, ◌++◌, map, Bytes, arith,
}
use s3ftpgateway.Session.{Server, Session}
use s3ftpgateway.LifeCycle.{
  Life, Accepted, connected, temporary_error, accept_error, returns, server_closed, others,
  shutdown_conn, track_listener, track_conn, serve_begin, serve_end, serve_round, conn_end,
  close_listeners, close_conns, close_locked, shutdown_locked, without,
}
use s3ftpgateway.LifeCycle.Conns.{All, All-map}
use s3ftpgateway.Serve.Late.{TakesNoCommand, shutting-TakesNoCommand}
use s3ftpgateway.LifeCycle.Shutting.{
  IsShutting, IsDraining, shutdown_locked-IsDraining, close_locked-IsDraining,
  shutdown_conns-IsDraining, Step-IsDraining, Steps-IsDraining,
}
use s3ftpgateway.LifeCycle.Run.{
  Step, serve_begins, serve_goes_on, serve_ends, conn_works, conn_ends, flag_is_set, closes,
  shuts_down, waits, Steps, stop, step, Waits, returns_nil, ticks, Shutdown, shutdown,
}

append-ne {ℓ} : {A : Type ℓ} (xs ys : List A) (y : A) → xs ++ y ∷ ys ≢ []
append-ne [] ys y e = cc
append-ne (x ∷ xs) ys y e = cc

module _ {S : Type 0} where
  -- The next result of `Accept` ends `serve`, whatever it is.
  abbrev pub IsOver : Life S → Type 0
  IsOver s =
      (s.listeners ≡ [])
      × ((store : S) (delay : ℕ) (r : Accepted)
          → (serve_round store delay r s).0 ≡ returns server_closed)

  module _ (srv : Server S) (listener_error : ℕ → Option Bytes)
      (conn_error : Session S → Option Bytes) where
    Step-no_conns :
        {s s' : Life S}
        → Step srv listener_error conn_error s s'
        → IsDraining s
        → s.conns ≡ []
        → s'.conns ≡ []
    unfolding serve_begin serve_end serve_round conn_end track_listener track_conn without others
        close_locked close_listeners close_conns shutdown_locked
    Step-no_conns (serve_begins ln s) d e = ground arith
    Step-no_conns (serve_goes_on store delay (connected n) s) d e = ground arith
    Step-no_conns (serve_goes_on store delay temporary_error s) d e = e
    Step-no_conns (serve_goes_on store delay (accept_error x) s) d e = e
    Step-no_conns (serve_ends ln s) d e = e
    Step-no_conns (conn_works s before after c executing x at st) d e =
        absurd (append-ne before after c (sym at ∙ e))
    Step-no_conns (conn_ends n s) d e = ap (others n) e
    Step-no_conns (flag_is_set s) d e = e
    Step-no_conns (closes s h) d e = refl
    Step-no_conns (shuts_down s h) d e = ap (map shutdown_conn) e
    Step-no_conns (waits s h) d e = ap (map shutdown_conn) e

    Steps-no_conns :
        {s s' : Life S}
        → Steps srv listener_error conn_error s s'
        → IsDraining s
        → s.conns ≡ []
        → s'.conns ≡ []
    Steps-no_conns (stop s) d e = e
    Steps-no_conns (step h hs) d e =
        Steps-no_conns hs (Step-IsDraining srv listener_error conn_error h d) (Step-no_conns h d e)

    IsDraining-IsOver : (s : Life S) → IsDraining s → IsOver s
    unfolding serve_round track_conn
    IsDraining-IsOver s d = (d.no_listeners, over)
      where
        over :
            (store : S) (delay : ℕ) (r : Accepted)
            → (serve_round store delay r s).0 ≡ returns server_closed
        over store delay (connected n) = ground (arith, d.flag)
        over store delay temporary_error = ground (arith, d.done)
        over store delay (accept_error x) = ground (arith, d.done)

    -- From the first critical section of Shutdown on, in every later state: each tracked
    -- connection is shutting down and the loop of serve executes no further command on it: the
    -- loop ends at its test, and a line that it has read by then leads to the reply 421 alone,
    -- where nothing goes on beside it; no listener is tracked, and whatever the next Accept gives
    -- ends serve with ErrServerClosed.
    pub Steps-shutdown_locked :
        (s s' : Life S)
        → s.shutting_down ≡ true
        → Steps srv listener_error conn_error (shutdown_locked listener_error conn_error s) s'
        → All IsShutting s'.conns × All (TakesNoCommand srv) s'.conns × IsOver s'
    Steps-shutdown_locked s s' e hs =
        let d =
          Steps-IsDraining srv listener_error conn_error hs
            (shutdown_locked-IsDraining srv listener_error conn_error s e) in
        (
          d.shutting,
          All-map IsShutting (TakesNoCommand srv) s'.conns (shutting-TakesNoCommand srv) d.shutting,
          IsDraining-IsOver s' d,
        )

    -- From the critical section of Close on, in every later state no connection and no listener is
    -- tracked, and whatever the next Accept gives ends serve with ErrServerClosed.
    pub Steps-close_locked :
        (s s' : Life S)
        → s.shutting_down ≡ true
        → Steps srv listener_error conn_error (close_locked listener_error conn_error s) s'
        → (s'.conns ≡ []) × IsOver s'
    Steps-close_locked s s' e hs =
        let d = close_locked-IsDraining srv listener_error conn_error s e in
        (
          Steps-no_conns hs d (unfold close_locked close_conns in refl),
          IsDraining-IsOver s' (Steps-IsDraining srv listener_error conn_error hs d),
        )

    Step-flag :
        {s s' : Life S}
        → Step srv listener_error conn_error s s'
        → s.shutting_down ≡ true
        → s'.shutting_down ≡ true
    unfolding serve_begin serve_end serve_round conn_end track_listener track_conn close_locked
        close_listeners close_conns shutdown_locked
    Step-flag (serve_begins ln s) e = ground arith
    Step-flag (serve_goes_on store delay (connected n) s) e = ground arith
    Step-flag (serve_goes_on store delay temporary_error s) e = e
    Step-flag (serve_goes_on store delay (accept_error x) s) e = e
    Step-flag (serve_ends ln s) e = e
    Step-flag (conn_works s before after c executing x at st) e = e
    Step-flag (conn_ends n s) e = e
    Step-flag (flag_is_set s) e = refl
    Step-flag (closes s h) e = e
    Step-flag (shuts_down s h) e = e
    Step-flag (waits s h) e = e

    Steps-flag :
        {s s' : Life S}
        → Steps srv listener_error conn_error s s'
        → s.shutting_down ≡ true
        → s'.shutting_down ≡ true
    Steps-flag (stop s) e = e
    Steps-flag (step h hs) e = Steps-flag hs (Step-flag h e)

    Waits-nil :
        {s s' : Life S}
        → Waits srv listener_error conn_error s true s'
        → IsDraining s
        → IsDraining s' × (s'.conns ≡ [])
    Waits-nil (returns_nil s e) d =
        (shutdown_conns-IsDraining srv listener_error conn_error s d, ap (map shutdown_conn) e)
    Waits-nil (ticks {s} ne hs w) d = Waits-nil w (
        Steps-IsDraining srv listener_error conn_error hs
          (shutdown_conns-IsDraining srv listener_error conn_error s d))

    -- Once a call of Shutdown has returned nil, with other goroutines between all of its steps:
    -- however the run goes on, the server tracks no connection and no listener, and whatever the
    -- next Accept gives ends serve with ErrServerClosed.
    pub Shutdown-no_conns :
        (s s' s'' : Life S)
        → Shutdown srv listener_error conn_error s true s'
        → Steps srv listener_error conn_error s' s''
        → (s''.conns ≡ []) × IsOver s''
    Shutdown-no_conns s s' s'' (shutdown {s₁} before between w) after =
        let d₁ =
          shutdown_locked-IsDraining srv listener_error conn_error s₁ (Steps-flag before refl) in
        let (d, e) = Waits-nil w (Steps-IsDraining srv listener_error conn_error between d₁) in
        (
          Steps-no_conns after d e,
          IsDraining-IsOver s'' (Steps-IsDraining srv listener_error conn_error after d),
        )

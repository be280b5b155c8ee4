-- ===== src/LifeCycle/Run.antt =====
-- Runs of a server of ftp/server.go: the critical sections of its goroutines in any order, and a
-- call of `Shutdown` among them.
use s3ftpgateway.Base.{ℕ, ◌≡◌, ◌≢◌, Bool, true, false, Option, List, [], ◌∷◌, ◌++◌, Bytes}
use s3ftpgateway.Session.{Server, Session}
use s3ftpgateway.Session.Run as Conn
use s3ftpgateway.LifeCycle.{
  Connection, Life, chan_nil, Accepted, serve_begin, serve_end, serve_round, conn_end, close_locked,
  shutdown_locked, shutdown_conns, set_shutting_down,
}

module _ {S : Type 0} (srv : Server S) (listener_error : ℕ → Option Bytes)
    (conn_error : Session S → Option Bytes) where
  -- What any goroutine does next: those of `Serve`, those of the connections, `Close`, and
  -- `Shutdown`, whose waiting rounds shut the connections down again. The flag is set before the
  -- mutex is taken.
  pub data Step : Life S → Life S → Type 0 where
    serve_begins : (ln : ℕ) (s : Life S) → Step s (serve_begin ln s).1
    serve_goes_on :
        (store : S) (delay : ℕ) (r : Accepted) (s : Life S) → Step s (serve_round store delay r s).1
    serve_ends : (ln : ℕ) (s : Life S) → Step s (serve_end ln s)
    conn_works :
        (s : Life S) (before after : List (Connection S)) (c : Connection S) (executing : Bool)
        (x : Session S)
        → s.conns ≡ before ++ c ∷ after
        → Conn.Step srv c.session x
        → Step s
            (record s { conns = before ++ record c { executing = executing; session = x } ∷ after })
    conn_ends : (n : ℕ) (s : Life S) → Step s (conn_end n s)
    flag_is_set : (s : Life S) → Step s (set_shutting_down s)
    closes :
        (s : Life S) → s.shutting_down ≡ true → Step s (close_locked listener_error conn_error s)
    shuts_down :
        (s : Life S) → s.shutting_down ≡ true → Step s (shutdown_locked listener_error conn_error s)
    waits :
        (s : Life S) → s.shutting_down ≡ true → Step s (shutdown_conns listener_error conn_error s)

  pub data Steps : Life S → Life S → Type 0 where
    stop : (s : Life S) → Steps s s
    step : {s s' s'' : Life S} → Step s s' → Steps s' s'' → Steps s s''

  -- The loop at the end of `Shutdown`, and whether it returns nil or the error of its context; other
  -- goroutines step between its rounds.
  pub data Waits : Life S → Bool → Life S → Type 0 where
    returns_nil :
        (s : Life S) → s.conns ≡ [] → Waits s true (shutdown_conns listener_error conn_error s)
    expires :
        (s : Life S) → s.conns ≢ [] → Waits s false (shutdown_conns listener_error conn_error s)
    ticks :
        {s s' s'' : Life S} {nil : Bool}
        → s.conns ≢ []
        → Steps (shutdown_conns listener_error conn_error s) s'
        → Waits s' nil s''
        → Waits s nil s''

  -- A call of `Shutdown`.
  pub data Shutdown : Life S → Bool → Life S → Type 0 where
    shutdown :
        {s s₁ s₂ s₃ : Life S} {nil : Bool}
        → Steps (set_shutting_down s) s₁
        → Steps (shutdown_locked listener_error conn_error s₁) s₂
        → Waits s₂ nil s₃
        → Shutdown s nil s₃

module _ {S : Type 0} where
  -- A server before its first call.
  abbrev pub fresh : Life S
  fresh = record {
    shutting_down = false;
    listeners = [];
    conns = [];
    done = chan_nil;
    closed_listeners = [];
    gone = [];
  }

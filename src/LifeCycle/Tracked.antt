-- ===== src/LifeCycle/Tracked.antt =====
-- The connections that a server of ftp/server.go tracks, and those that it has given up.
use s3ftpgateway.Base.{ℕ, refl, subst, Option, List, [], ◌∷◌, map, Bytes, Bool-cases, inl, inr}
use s3ftpgateway.Session.{Server, Session}
use s3ftpgateway.Session.Invariant.{IsSound}
use s3ftpgateway.Session.Reached.{Reach-IsSound}
use s3ftpgateway.Session.Run as Conn
use s3ftpgateway.LifeCycle.{
  Connection, Life, connected, temporary_error, accept_error, named, shutdown_conn, track_listener,
  track_conn, serve_begin, serve_end, serve_round, conn_end, close_listeners, close_conns,
  close_locked, shutdown_locked,
}
use s3ftpgateway.LifeCycle.Conns.{
  All, IsClosed, All-append, All-close, All-others, All-replaced, All-map,
}
use s3ftpgateway.LifeCycle.Run.{
  Step, serve_begins, serve_goes_on, serve_ends, conn_works, conn_ends, flag_is_set, closes,
  shuts_down, waits, Steps, stop, step, fresh,
}

module _ {S : Type 0} where
  module _ (srv : Server S) where
    All-shutdown :
        (cs : List (Connection S))
        → All (Conn.Reach srv) cs
        → All (Conn.Reach srv) (map shutdown_conn cs)
    All-shutdown [] h = tt
    All-shutdown (c ∷ cs) h = (Conn.next h.0 (Conn.shut c.executing c.session), All-shutdown cs h.1)

    -- Every tracked connection is in a state that a connection reaches, and those that are not
    -- tracked any more are closed.
    pub record IsTracking (s : Life S) : Type 0 where
      pub reached : All (Conn.Reach srv) s.conns
      pub closed : All IsClosed s.gone

    module _ (listener_error : ℕ → Option Bytes) (conn_error : Session S → Option Bytes) where
      Step-IsTracking :
          {s s' : Life S} → Step srv listener_error conn_error s s' → IsTracking s → IsTracking s'
      unfolding serve_begin serve_end serve_round conn_end track_listener track_conn close_locked
          close_listeners close_conns shutdown_locked
      Step-IsTracking (serve_begins ln s) t = elim (Bool-cases s.shutting_down) [
        | inl flag ↦ rw flag (record { reached = t.reached; closed = t.closed })
        | inr flag ↦ rw flag (record { reached = t.reached; closed = t.closed })
      ]
      Step-IsTracking (serve_goes_on store delay (connected n) s) t =
          elim (Bool-cases s.shutting_down) [
            | inl flag ↦ rw flag (record { reached = t.reached; closed = (refl, t.closed) })
            | inr flag ↦ rw flag (record {
              reached = (Conn.start store, All-others (Conn.Reach srv) n s.conns t.reached);
              closed = t.closed;
            })
          ]
      Step-IsTracking (serve_goes_on store delay temporary_error s) t = record {
        reached = t.reached;
        closed = t.closed;
      }
      Step-IsTracking (serve_goes_on store delay (accept_error x) s) t = record {
        reached = t.reached;
        closed = t.closed;
      }
      Step-IsTracking (serve_ends ln s) t = record { reached = t.reached; closed = t.closed }
      Step-IsTracking (conn_works s before after c executing x at st) t = record {
        reached =
            All-replaced (Conn.Reach srv) before after c _ (λ r. Conn.next r st)
              (subst (All (Conn.Reach srv)) at t.reached);
        closed = t.closed;
      }
      Step-IsTracking (conn_ends n s) t = record {
        reached = All-others (Conn.Reach srv) n s.conns t.reached;
        closed = All-append IsClosed _ s.gone (All-close (named n s.conns)) t.closed;
      }
      Step-IsTracking (flag_is_set s) t = record { reached = t.reached; closed = t.closed }
      Step-IsTracking (closes s h) t = record {
        reached = tt;
        closed = All-append IsClosed _ s.gone (All-close s.conns) t.closed;
      }
      Step-IsTracking (shuts_down s h) t = record {
        reached = All-shutdown s.conns t.reached;
        closed = t.closed;
      }
      Step-IsTracking (waits s h) t = record {
        reached = All-shutdown s.conns t.reached;
        closed = t.closed;
      }

      Steps-IsTracking :
          {s s' : Life S} → Steps srv listener_error conn_error s s' → IsTracking s → IsTracking s'
      Steps-IsTracking (stop s) t = t
      Steps-IsTracking (step h hs) t = Steps-IsTracking hs (Step-IsTracking h t)

      -- After any run of a fresh server, with the goroutines of Serve, of the connections, of
      -- Close and of Shutdown in any order: every tracked connection is in a sound state, and
      -- every connection that is not tracked any more has been closed.
      pub Steps-IsSound :
          (s : Life S)
          → Steps srv listener_error conn_error fresh s
          → All IsSound s.conns × All IsClosed s.gone
      Steps-IsSound s hs =
          let t = Steps-IsTracking hs (record { reached = tt; closed = tt }) in
          (
            All-map (Conn.Reach srv) IsSound s.conns (λ x r. Reach-IsSound srv r) t.reached,
            t.closed,
          )

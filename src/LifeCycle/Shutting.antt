-- ===== src/LifeCycle/Shutting.antt =====
-- A server of ftp/server.go that is shutting down, step by step.
use s3ftpgateway.Base.{ℕ, ◌≡◌, refl, ap, subst, true, Option, List, [], ◌∷◌, map, Bytes, arith}
use s3ftpgateway.Session.{Server, Session, task_retr, task_store, task_list, task_rename}
use s3ftpgateway.Session.Transfer.{run_task}
use s3ftpgateway.Session.Run as Conn
use s3ftpgateway.LifeCycle.{
  Connection, Life, chan_closed, connected, temporary_error, accept_error, shutdown_conn,
  track_listener, track_conn, get_done_chan, serve_begin, serve_end, serve_round, conn_end,
  close_listeners, close_conns, close_locked, shutdown_locked, shutdown_conns, without,
}
use s3ftpgateway.LifeCycle.Conns.{All, All-others, All-replaced}
use s3ftpgateway.LifeCycle.Run.{
  Step, serve_begins, serve_goes_on, serve_ends, conn_works, conn_ends, flag_is_set, closes,
  shuts_down, waits, Steps, stop, step,
}

module _ {S : Type 0} where
  abbrev pub IsShutting : Session S → Type 0
  IsShutting x = x.shutting_down ≡ true

  -- The server takes no listener and no connection any more, and its connections take no command.
  pub record IsDraining (s : Life S) : Type 0 where
    pub flag : s.shutting_down ≡ true
    pub done : s.done ≡ chan_closed
    pub no_listeners : s.listeners ≡ []
    pub shutting : All IsShutting s.conns

  All-shutdown : (cs : List (Connection S)) → All IsShutting (map shutdown_conn cs)
  All-shutdown [] = tt
  All-shutdown (c ∷ cs) = (refl, All-shutdown cs)

  module _ (srv : Server S) where
    session-shutting :
        {x y : Session S} → Conn.Step srv x y → x.shutting_down ≡ true → y.shutting_down ≡ true
    unfolding run_task
    session-shutting (Conn.line env text c up) e = absurd (ground arith)
    session-shutting (Conn.late_line c h) e = e
    session-shutting (Conn.shut executing c) e = refl
    session-shutting (Conn.closing c) e = refl
    session-shutting (Conn.finish env c before later (task_retr content conn) h) e = ground arith
    session-shutting (Conn.finish env c before later (task_list payload n conn) h) e = ground arith
    session-shutting (Conn.finish env c before later (task_store name old conn m) h) e =
        ground arith
    session-shutting (Conn.finish env c before later (task_rename fs from to content) h) e =
        ground arith

  module _ (srv : Server S) (listener_error : ℕ → Option Bytes)
      (conn_error : Session S → Option Bytes) where
    pub shutdown_locked-IsDraining :
        (s : Life S)
        → s.shutting_down ≡ true
        → IsDraining (shutdown_locked listener_error conn_error s)
    unfolding shutdown_locked close_listeners
    shutdown_locked-IsDraining s e = record {
      flag = e;
      done = refl;
      no_listeners = refl;
      shutting = All-shutdown s.conns;
    }

    pub close_locked-IsDraining :
        (s : Life S)
        → s.shutting_down ≡ true
        → IsDraining (close_locked listener_error conn_error s)
    unfolding close_locked close_listeners close_conns
    close_locked-IsDraining s e = record {
      flag = e;
      done = refl;
      no_listeners = refl;
      shutting = tt;
    }

    get_done_chan-IsDraining : (s : Life S) → IsDraining s → IsDraining (get_done_chan s)
    get_done_chan-IsDraining s d = record {
      flag = d.flag;
      done = ground arith;
      no_listeners = d.no_listeners;
      shutting = d.shutting;
    }

    pub shutdown_conns-IsDraining :
        (s : Life S) → IsDraining s → IsDraining (shutdown_conns listener_error conn_error s)
    shutdown_conns-IsDraining s d = record {
      flag = d.flag;
      done = d.done;
      no_listeners = d.no_listeners;
      shutting = All-shutdown s.conns;
    }

    pub Step-IsDraining :
        {s s' : Life S} → Step srv listener_error conn_error s s' → IsDraining s → IsDraining s'
    unfolding serve_begin serve_end serve_round conn_end track_listener track_conn without
    Step-IsDraining (serve_begins ln s) d = rw d.flag (record {
      flag = refl;
      done = d.done;
      no_listeners = d.no_listeners;
      shutting = d.shutting;
    })
    Step-IsDraining (serve_goes_on store delay (connected n) s) d = rw d.flag (record {
      flag = refl;
      done = d.done;
      no_listeners = d.no_listeners;
      shutting = d.shutting;
    })
    Step-IsDraining (serve_goes_on store delay temporary_error s) d = get_done_chan-IsDraining s d
    Step-IsDraining (serve_goes_on store delay (accept_error x) s) d = get_done_chan-IsDraining s d
    Step-IsDraining (serve_ends ln s) d = record {
      flag = d.flag;
      done = d.done;
      no_listeners = ap (without ln) d.no_listeners;
      shutting = d.shutting;
    }
    Step-IsDraining (conn_works s before after c executing x at st) d = record {
      flag = d.flag;
      done = d.done;
      no_listeners = d.no_listeners;
      shutting =
          All-replaced IsShutting before after c _ (session-shutting srv st)
            (subst (All IsShutting) at d.shutting);
    }
    Step-IsDraining (conn_ends n s) d = record {
      flag = d.flag;
      done = d.done;
      no_listeners = d.no_listeners;
      shutting = All-others IsShutting n s.conns d.shutting;
    }
    Step-IsDraining (flag_is_set s) d = record {
      flag = refl;
      done = d.done;
      no_listeners = d.no_listeners;
      shutting = d.shutting;
    }
    Step-IsDraining (closes s e) d = close_locked-IsDraining s e
    Step-IsDraining (shuts_down s e) d = shutdown_locked-IsDraining s e
    Step-IsDraining (waits s e) d = shutdown_conns-IsDraining s d

    pub Steps-IsDraining :
        {s s' : Life S} → Steps srv listener_error conn_error s s' → IsDraining s → IsDraining s'
    Steps-IsDraining (stop s) d = d
    Steps-IsDraining (step h hs) d = Steps-IsDraining hs (Step-IsDraining h d)

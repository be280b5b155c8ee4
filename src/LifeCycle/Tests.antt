-- ===== src/LifeCycle/Tests.antt =====
-- The life of a server of ftp/server.go: it takes a connection, shuts down while it lasts, and waits
-- for its end.
use s3ftpgateway.Base.{
  ℕ, ◌≡◌, ◌*◌, ◌^◌, refl, true, false, Option, none, [], ltb, if◌then◌else◌, Bytes,
}
use s3ftpgateway.MapFs.{Store}
use s3ftpgateway.Session.{Server, Session}
use s3ftpgateway.Session.Invariant.{IsSound}
use s3ftpgateway.LifeCycle.{
  Life, connected, temporary_error, continues, others, track_listener, track_conn, serve_begin,
  serve_round, without, shutdown_locked, shutdown_conns, set_shutting_down, close_listeners,
  conn_end,
}
use s3ftpgateway.LifeCycle.Run.{
  serve_begins, serve_goes_on, conn_ends, Steps, stop, step, returns_nil, Shutdown, shutdown, fresh,
}
use s3ftpgateway.LifeCycle.Delay.{delay_after, serve_round-delay}
use s3ftpgateway.LifeCycle.Conns.{All, IsClosed}
use s3ftpgateway.LifeCycle.Shutting.{IsShutting}
use s3ftpgateway.Serve.Late.{TakesNoCommand}
use s3ftpgateway.LifeCycle.Drain.{IsOver, Steps-shutdown_locked, Shutdown-no_conns}
use s3ftpgateway.LifeCycle.Tracked.{Steps-IsSound}

abbrev server : Server Store
server = record {
  file_system = none;
  authorizer = none;
  public_ips = [];
  enable_active_mode = false;
  disable_address_check = false;
}

abbrev no_error : ℕ → Option Bytes
no_error ln = none

abbrev no_conn_error : Session Store → Option Bytes
no_conn_error x = none

abbrev listening : Life Store
listening = (serve_begin 21 fresh).1

abbrev serving : Life Store
serving = (serve_round [] 0 (connected 1) listening).1

abbrev flagged : Life Store
flagged = set_shutting_down serving

abbrev draining : Life Store
draining = shutdown_locked no_error no_conn_error flagged

abbrev ended : Life Store
ended = conn_end 1 draining

abbrev stopped : Life Store
stopped = shutdown_conns no_error no_conn_error ended

serving-Steps : Steps server no_error no_conn_error fresh serving
serving-Steps =
    step (serve_begins 21 fresh) (step (serve_goes_on [] 0 (connected 1) listening) (stop serving))

serving-flag : flagged.shutting_down ≡ true
serving-flag = refl

-- A client comes too late, and the connection ends.
draining-Steps : Steps server no_error no_conn_error draining ended
draining-Steps = step (conn_ends 1 draining) (stop ended)

ended-no_conns : ended.conns ≡ []
unfolding conn_end shutdown_locked close_listeners serve_round serve_begin track_conn track_listener
    others without
ended-no_conns = refl

shutdown-run : Shutdown server no_error no_conn_error serving true stopped
shutdown-run = shutdown (stop flagged) draining-Steps (returns_nil ended ended-no_conns)

serve_round-delay_example :
    (serve_round [] (delay_after 3) temporary_error listening).0
    ≡ continues (if ltb 1000 (5 * 2 ^ 3) then 1000 else 5 * 2 ^ 3)
unfolding serve_begin track_listener
serve_round-delay_example = serve_round-delay [] 3 listening refl

Steps-IsSound_example : All IsSound serving.conns × All IsClosed serving.gone
Steps-IsSound_example = Steps-IsSound server no_error no_conn_error serving serving-Steps

Steps-shutdown_locked_example :
    All IsShutting draining.conns × All (TakesNoCommand server) draining.conns × IsOver draining
Steps-shutdown_locked_example =
    Steps-shutdown_locked server no_error no_conn_error flagged draining serving-flag
      (stop draining)

Shutdown-no_conns_example : (stopped.conns ≡ []) × IsOver stopped
Shutdown-no_conns_example =
    Shutdown-no_conns server no_error no_conn_error serving stopped stopped shutdown-run
      (stop stopped)

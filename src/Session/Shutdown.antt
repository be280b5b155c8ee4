-- ===== src/Session/Shutdown.antt =====
-- ftp/conn.go: `ServerConn.Shutdown`, which calls `shutdown` until it fails or its context ends, and
-- `ServerConn.Close`.
use s3ftpgateway.Base.{
  ◌≢◌, ◌≡◌, Bool, true, false, ◌&&◌, not, Option, none, some, List, [], ◌∷◌, if◌then◌else◌, arith,
}
use s3ftpgateway.Session.Run.{is_empty_transfer, shutdown, close}
use s3ftpgateway.Session.{Session, dt_empty}

-- The error of closing a connection that is closed, any other error of closing, and that of the
-- context.
pub data ShutdownError : Type 0 where
  use_of_closed close_failed context_error : ShutdownError

-- What goes on in a round: whether a command is executed, how the network closes an open
-- connection, whether the context has ended, and what other goroutines do until the next tick.
pub record Tick (S : Type 0) : Type 0 where
  pub executing : Bool
  pub close_fails : Bool
  pub done : Bool
  pub meanwhile : Session S → Session S

module _ {S : Type 0} where
  -- What `ServerConn.shutdown` returns: the error of `rwc.Close`, if it is called and fails.
  unfoldable pub shutdown_error : Tick S → Session S → Option ShutdownError
  shutdown_error t c =
      if is_empty_transfer c.dt && not t.executing
      then (if c.closed
          then some use_of_closed
          else if t.close_fails
          then some close_failed
          else none)
      else none

  -- The loop: a call, and then a tick or the end of the context. `none` is a loop that still goes
  -- on when the ticks that are given are over.
  unfoldable pub shutdown_loop :
      List (Tick S) → Session S → Option (Option ShutdownError × Session S)
  unfolding shutdown_error
  shutdown_loop [] c = none
  shutdown_loop (t ∷ ts) c =
      let rest = shutdown_loop ts (t.meanwhile (shutdown t.executing c)) in
      let c' = shutdown t.executing c in
      elim (shutdown_error t c) [
        | some e ↦ some (some e, c')
        | none ↦ if t.done then some (some context_error, c') else rest
      ]

  -- `ServerConn.Shutdown`: a call in front of the loop.
  unfoldable pub conn_shutdown :
      Tick S → List (Tick S) → Session S → Option (Option ShutdownError × Session S)
  unfolding shutdown_loop
  conn_shutdown t ts c =
      let c' = shutdown t.executing c in
      elim (shutdown_error t c) [
        | some e ↦ some (some e, c')
        | none ↦ shutdown_loop ts (t.meanwhile c')
      ]

  shutdown_loop-ne-nil :
      (ts : List (Tick S)) (c c' : Session S) (r : Option ShutdownError)
      → shutdown_loop ts c ≡ some (r, c')
      → (r ≢ none) × (c'.shutting_down ≡ true)
  unfolding shutdown_loop
  shutdown_loop-ne-nil [] c c' r e = cc
  shutdown_loop-ne-nil (t ∷ ts) c c' r e =
      ground (arith, shutdown_loop-ne-nil ts (t.meanwhile (shutdown t.executing c)) c' r)

  -- If the Shutdown of a connection returns, it returns an error, never nil, and the connection is
  -- shutting down.
  pub conn_shutdown-ne-nil :
      (t : Tick S) (ts : List (Tick S)) (c c' : Session S) (r : Option ShutdownError)
      → conn_shutdown t ts c ≡ some (r, c')
      → (r ≢ none) × (c'.shutting_down ≡ true)
  unfolding conn_shutdown
  conn_shutdown-ne-nil t ts c c' r e =
      ground (arith, shutdown_loop-ne-nil ts (t.meanwhile (shutdown t.executing c)) c' r)

  -- An idle connection that closes without an error: the next tick closes it again, and fails.
  pub conn_shutdown-idle :
      (t u : Tick S) (ts : List (Tick S)) (c : Session S)
      → c.dt ≡ dt_empty
      → t.executing ≡ false
      → u.executing ≡ false
      → c.closed ≡ false
      → t.close_fails ≡ false
      → ((c' : Session S) → t.meanwhile c' ≡ c')
      → conn_shutdown t (u ∷ ts) c ≡ some (some use_of_closed, shutdown false (shutdown false c))
  unfolding conn_shutdown
  conn_shutdown-idle t u ts c empty idle idle' opened closes quiet =
      ground (arith, quiet (shutdown t.executing c))

-- `closeOnce`, whether it has run, and `closeErr`.
pub record Closing : Type 0 where
  pub ran : Bool
  pub close_err : Option ShutdownError

-- The first error is kept.
abbrev keep_first : Option ShutdownError → Option ShutdownError → Option ShutdownError
keep_first (some e) next = some e
keep_first none next = next

module _ {S : Type 0} where
  -- `ServerConn.Close`, from the errors of closing the data transfer and the connection.
  unfoldable pub conn_close :
      Option ShutdownError
      → Option ShutdownError
      → Closing × Session S
      → Option ShutdownError × (Closing × Session S)
  conn_close transfer_err rwc_err (k, c) =
      if k.ran
      then (k.close_err, (k, c))
      else (let e = keep_first (keep_first k.close_err transfer_err) rwc_err in
          (e, (record { ran = true; close_err = e }, close c)))

  -- A second call gives the same error and changes nothing.
  conn_close-once :
      (a b a' b' : Option ShutdownError) (k : Closing) (c : Session S)
      → conn_close a' b' (conn_close a b (k, c)).1 ≡ conn_close a b (k, c)
  unfolding conn_close
  conn_close-once a b a' b' k c = ground arith

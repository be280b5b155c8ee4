-- ===== src/Serve.antt =====
-- ftp/conn.go: `serve`, the loop of a control connection from the bytes that the client sends to the
-- bytes that it gets, and `upgradeToTLS`. What the network, the clock and the other goroutines do
-- in a round of the loop is a `Round`.
pub mod Total
pub mod Reached
pub mod Script
pub mod Texts
pub mod Sent
pub mod Late
mod Tests
use s3ftpgateway.Base.{
  ℕ, zero, suc, Bool, true, false, ◌&&◌, ◌||◌, Option, none, some, List, [], ◌∷◌, ◌++◌,
  if◌then◌else◌, length, drop, Bytes, codes, Result, ok, err,
}
use s3ftpgateway.Command.{Command, Handler, command_auth, parse_command, find_handler}
use s3ftpgateway.Reply.{write_reply}
use s3ftpgateway.Scanner.{Scanner, new_scanner, Scanned, scan}
use s3ftpgateway.Session.Run.{exec_command, new_conn}
use s3ftpgateway.Session.{Env, Server, Session, handshake_done, reply}
use s3ftpgateway.Status.{status_not_available}
use s3ftpgateway.Telnet.{TelnetConn}
use s3ftpgateway.Text.{equal_fold}

-- `ctrl`, `scanner`, and the rest of the connection.
pub record Serving (S : Type 0) : Type 0 where
  pub conn : TelnetConn
  pub scanner : Scanner
  pub session : Session S

-- A goroutine that ends, a shutdown, or a close: one critical section beside the loop, which closes
-- the connection only after its own replies.
abbrev pub Beside : Type 0 → Type 0
Beside S = Session S → Session S

-- `arriving` are the events until a line was read, `leaving` those until the next round begins, in
-- their order; `handshake_leaves` is what comes behind a TLS handshake, deciphered if it
-- succeeded, of what was still to come.
pub record Round (S : Type 0) : Type 0 where
  pub env : Env
  pub arriving : List (Beside S)
  pub leaving : List (Beside S)
  pub handshake_leaves : Bytes → Bytes

-- `WriteReply`, which only logs an error.
abbrev pub write_or_log : ℕ → List Bytes → TelnetConn → TelnetConn
write_or_log code msgs c = elim (write_reply code msgs c) [ err e ↦ c | ok c' ↦ c' ]

pub send_replies : List (ℕ × List Bytes) → TelnetConn → TelnetConn
send_replies [] c = c
send_replies ((code, msgs) ∷ rs) c = send_replies rs (write_or_log code msgs c)

abbrev is_auth : Option Handler → Bool
is_auth (some command_auth) = true
is_auth _ = false

-- The command begins a handshake.
pub begins_tls : Command → Bool
begins_tls cmd = is_auth (find_handler cmd.name) && equal_fold cmd.arg (codes "TLS")

module _ {S : Type 0} where
  -- The session goes on as `c`, and its new replies go out, unless the connection was closed before:
  -- a write to it fails then, which is only logged.
  abbrev pub respond : Session S → Serving S → Serving S
  respond c s = record s {
    session = c;
    conn =
        if s.session.closed
        then s.conn
        else send_replies (drop (length s.session.replies) c.replies) s.conn;
  }

  -- The session after some events, and the connection with what they send.
  pub after_events : List (Beside S) → Session S → Session S
  after_events [] c = c
  after_events (e ∷ es) c = after_events es (e c)

  pub happen : List (Beside S) → Serving S → Serving S
  happen [] s = s
  happen (e ∷ es) s = happen es (respond (e s.session) s)

  -- `upgradeToTLS`: a handshake that succeeds gives a new telnet layer and a new scanner, and what
  -- the old ones held is dropped.
  pub upgrade_to_tls : Round S → Serving S → Serving S
  upgrade_to_tls rd s =
      let input = rd.handshake_leaves s.conn.input in
      elim rd.env.handshake [
        | handshake_done ↦ record s {
          conn = record s.conn { input = input; willopt = []; doopt = []; buffered = [] };
          scanner = new_scanner;
        }
        | _ ↦ record s { conn = record s.conn { input = input } }
      ]

  abbrev pub late : Session S → Session S
  late = reply status_not_available (codes "Service not available, closing control connection.")

module _ {S : Type 0} (srv : Server S) where
  -- The body of the loop of `serve`, for a line that is executed.
  pub turn : Round S → Bytes → Serving S → Serving S
  unfolding happen
  turn rd text s =
      let cmd = parse_command text in
      let done = respond (exec_command rd.env srv cmd s.session) s in
      let behind = if begins_tls cmd then upgrade_to_tls rd done else done in
      happen rd.leaving behind

  -- What a round does with a line: the rest of the loop, `next`, stands behind its execution.
  pub on_line : Round S → (Serving S → Option (Serving S)) → Bytes → Serving S → Option (Serving S)
  unfolding turn happen
  on_line rd next text s =
      let s' = happen rd.arriving s in
      elim s'.session.shutting_down [
        | true ↦ some (respond (late s'.session) s')
        | false ↦ next (turn rd text s')
      ]

  pub on_scan :
      Round S → (Serving S → Option (Serving S)) → Serving S → Scanned → Option (Serving S)
  unfolding on_line
  on_scan rd next s none = none
  on_scan rd next s (some (none, sc, c)) = some (record s { scanner = sc; conn = c })
  on_scan rd next s (some (some text, sc, c)) =
      on_line rd next text (record s { scanner = sc; conn = c })

  -- The loop of `serve`. A panic ends the program. Each line uses a byte up, so fuel above the
  -- length of the input is enough.
  pub serve_loop : ℕ → (ℕ → Round S) → ℕ → Serving S → Option (Serving S)
  unfolding on_scan
  serve_loop zero rounds n s = none
  serve_loop (suc f) rounds n s =
      if s.session.shutting_down || s.session.panicked
      then some s
      else on_scan (rounds n) (serve_loop f rounds (suc n)) s (scan s.scanner s.conn)

  -- `newConn` and `serve`, with the greeting.
  pub serve : (ℕ → Round S) → TelnetConn → S → Option (Serving S)
  unfolding serve_loop
  serve rounds c store =
      let session = new_conn store in
      let s : Serving S = record {
        conn = send_replies session.replies c;
        scanner = new_scanner;
        session = session;
      } in
      serve_loop (suc (length c.input)) rounds 0 s

-- ===== src/Serve/Reached.antt =====
-- ftp/conn.go: the states that the loop of `serve` reaches are those of the step relation.
use s3ftpgateway.Base.{
  ℕ, zero, suc, ◌≤◌, ◌≡◌, refl, sym, subst, Bool, true, false, Bool-cases, Option-cases, Option,
  none, some, ◌||◌, inl, inr, if◌then◌else◌, length, Bytes, arith,
}
use s3ftpgateway.Command.{parse_command}
use s3ftpgateway.Scanner.{Scanned, new_scanner, scan}
use s3ftpgateway.Serve.Total.{happen-session, serve-Returned, Returned}
use s3ftpgateway.Serve.{
  Serving, Round, send_replies, respond, happen, after_events, upgrade_to_tls, begins_tls, turn,
  on_line, on_scan, serve_loop, serve, late,
}
use s3ftpgateway.Session.Run.{exec_command, new_conn, Step, line, late_line, Reach, start, next}
use s3ftpgateway.Session.{Server, Session}
use s3ftpgateway.Telnet.{TelnetConn}

-- Any number of steps.
pub data Steps {S : Type 0} (srv : Server S) (c : Session S) : Session S → Type 0 where
  rest : Steps srv c c
  more : {c' c'' : Session S} → Steps srv c c' → Step srv c' c'' → Steps srv c c''

-- What goes on beside the loop are steps of the connection.
pub record Follows {S : Type 0} (srv : Server S) (rounds : ℕ → Round S) : Type 0 where
  pub arrives : (n : ℕ) (c : Session S) → Steps srv c (after_events (rounds n).arriving c)
  pub leaves : (n : ℕ) (c : Session S) → Steps srv c (after_events (rounds n).leaving c)

-- A result of the loop is a state that the connection can reach.
abbrev IsReached : {S : Type 0} → Server S → Option (Serving S) → Type 0
IsReached srv none = Unit
IsReached srv (some s) = Reach srv s.session

module _ {S : Type 0} (srv : Server S) where
  Steps-Reach : {c c' : Session S} → Reach srv c → Steps srv c c' → Reach srv c'
  Steps-Reach r rest = r
  Steps-Reach r (more ss st) = next (Steps-Reach r ss) st

  upgrade_to_tls-session :
      (rd : Round S) (s : Serving S) → (upgrade_to_tls rd s).session ≡ s.session
  unfolding upgrade_to_tls
  upgrade_to_tls-session rd s = ground arith

  module _ (rounds : ℕ → Round S) (follows : Follows srv rounds) where
    turn-Reach :
        (n : ℕ) (text : Bytes) (s : Serving S)
        → Reach srv s.session
        → s.session.shutting_down ≡ false
        → Reach srv (turn srv (rounds n) text s).session
    unfolding turn
    turn-Reach n text s r open_yet =
        let cmd = parse_command text in
        let c' : Session S = exec_command (rounds n).env srv cmd s.session in
        let done : Serving S = respond c' s in
        let behind : Serving S = if begins_tls cmd then upgrade_to_tls (rounds n) done else done in
        let same : behind.session ≡ c' = ground (arith, upgrade_to_tls-session (rounds n) done) in
        let r' : Reach srv behind.session =
          subst (Reach srv) (sym same) (next r (line (rounds n).env text s.session open_yet)) in
        subst (Reach srv) (sym (happen-session (rounds n).leaving behind))
          (Steps-Reach r' (follows.leaves n behind.session))

    on_line-Reach :
        (following : Serving S → Option (Serving S)) (n : ℕ) (text : Bytes) (s : Serving S)
        → ((s' : Serving S) → Reach srv s'.session → IsReached srv (following s'))
        → Reach srv s.session
        → IsReached srv (on_line srv (rounds n) following text s)
    unfolding on_line
    on_line-Reach following n text s continues r =
        go (happen (rounds n).arriving s)
          (subst (Reach srv) (sym (happen-session (rounds n).arriving s))
            (Steps-Reach r (follows.arrives n s.session)))
          _ refl
      where
        go :
            (s' : Serving S)
            → Reach srv s'.session
            → (b : Bool) → s'.session.shutting_down ≡ b
            → IsReached srv (elim b [
              | true ↦ some (respond (late s'.session) s')
              | false ↦ following (turn srv (rounds n) text s')
            ])
        go s' r' true e = next r' (late_line s'.session e)
        go s' r' false e = continues (turn srv (rounds n) text s') (turn-Reach n text s' r' e)

    on_scan-Reach :
        (following : Serving S → Option (Serving S)) (n : ℕ) (s : Serving S) (scanned : Scanned)
        → ((s' : Serving S) → Reach srv s'.session → IsReached srv (following s'))
        → Reach srv s.session
        → IsReached srv (on_scan srv (rounds n) following s scanned)
    unfolding on_scan
    on_scan-Reach following n s none continues r = tt
    on_scan-Reach following n s (some (none, sc, c)) continues r = r
    on_scan-Reach following n s (some (some text, sc, c)) continues r =
        on_line-Reach following n text (record s { scanner = sc; conn = c }) continues r

    serve_loop-Reach :
        (f n : ℕ) (s : Serving S)
        → Reach srv s.session
        → IsReached srv (serve_loop srv f rounds n s)
    unfolding serve_loop
    serve_loop-Reach zero n s r = tt
    serve_loop-Reach (suc f) n s r =
        elim (Bool-cases (s.session.shutting_down || s.session.panicked)) [
          | inl b ↦ simp b r
          | inr b ↦ simp b (
              on_scan-Reach (serve_loop srv f rounds (suc n)) n s (scan s.scanner s.conn)
                (serve_loop-Reach f (suc n)) r)
        ]

    -- Where what goes on beside the loop are steps of the connection, and a TLS handshake leaves
    -- no more bytes than there were: whatever bytes the client sends, serve returns, and the
    -- session that it ends with is one that the step relation of the connection reaches.
    pub serve-Reach :
        (c : TelnetConn) (store : S)
        → ((n : ℕ) (bs : Bytes) → length ((rounds n).handshake_leaves bs) ≤ length bs)
        → (s : Serving S) × (serve srv rounds c store ≡ some s) × Reach srv s.session
    unfolding serve
    serve-Reach c store shrinks =
        let sent : TelnetConn = send_replies (new_conn store).replies c in
        let s0 : Serving S = record {
          conn = sent;
          scanner = new_scanner;
          session = new_conn store;
        } in
        let reached = serve_loop-Reach (suc (length c.input)) 0 s0 (start store) in
        elim (Option-cases (serve srv rounds c store)) [
          | inl e ↦ absurd (subst Returned e (serve-Returned srv rounds shrinks c store))
          | inr (s, e) ↦ (s, e, subst (IsReached srv) e reached)
        ]

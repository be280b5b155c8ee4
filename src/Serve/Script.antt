-- ===== src/Serve/Script.antt =====
-- ftp/conn.go: the loop of `serve` over the requests of a client that follows the protocols.
use s3ftpgateway.Base.{
  ℕ, zero, suc, ◌≤◌, ◌<◌, ◌≡◌, ◌≢◌, refl, sym, ap, subst, ◌∙◌, Bool, true, false, Bool-cases,
  Option, none, some, ◌||◌, inl, inr, List, [], ◌∷◌, ◌++◌, if◌then◌else◌, length, length-append,
  Bytes, arith,
}
use s3ftpgateway.Command.Parse.{IsWord, IsTrimmed, parse_command-command_string}
use s3ftpgateway.Command.{Command, command_string, parse_command}
use s3ftpgateway.Scanner.Lines.{Token, scan-Token, scan-Ended}
use s3ftpgateway.Scanner.Rounds.{Ended, IsIdle, drop_cr-append}
use s3ftpgateway.Scanner.{Scanned, drop_cr, new_scanner, scan}
use s3ftpgateway.Serve.Total.{send_replies-input, respond-input, happen-session}
use s3ftpgateway.Serve.{
  Serving, Round, send_replies, Beside, respond, happen, after_events, begins_tls, turn, on_line,
  on_scan, serve_loop, serve, late,
}
use s3ftpgateway.Session.Run.{exec_command, new_conn}
use s3ftpgateway.Session.{Server, Session}
use s3ftpgateway.Telnet.Wire.{Item, IsLine, data_of, encode, behind}
use s3ftpgateway.Telnet.{TelnetConn}

-- A command, and the telnet items that carry it.
pub record Request : Type 0 where
  pub items : List Item
  pub command : Command

-- The items carry the text of the command and CR, and the command is not AUTH TLS.
pub record IsRequest (r : Request) : Type 0 where
  pub line : IsLine r.items
  pub text : data_of r.items ≡ command_string r.command ++ b'\r' ∷ []
  pub short : length (data_of r.items) < 65536
  pub named : r.command.name ≢ []
  pub word : IsWord r.command.name
  pub trimmed : IsTrimmed r.command.arg
  pub plain : begins_tls r.command ≡ false

abbrev pub AreRequests : List Request → Type 0
AreRequests [] = Unit
AreRequests (r ∷ rs) = IsRequest r × AreRequests rs

-- Each request ends in a newline.
abbrev pub encode_requests : List Request → Bytes
encode_requests [] = []
encode_requests (r ∷ rs) = encode r.items ++ b'\n' ∷ encode_requests rs

-- What the commands of the client come to, without the bytes: the reference for the loop.
module _ {S : Type 0} (srv : Server S) (rounds : ℕ → Round S) where
  unfoldable pub script : ℕ → List Request → Session S → Session S
  script n [] c = c
  script n (r ∷ rs) c =
      if c.shutting_down || c.panicked
      then c
      else (let c' = after_events (rounds n).arriving c in
          elim c'.shutting_down [
            | true ↦ late c'
            | false ↦
                script (suc n) rs
                  (after_events (rounds n).leaving (exec_command (rounds n).env srv r.command c'))
          ])

pub parse_command-drop_cr :
    (r : Request) → IsRequest r → parse_command (drop_cr (data_of r.items)) ≡ r.command
parse_command-drop_cr r h =
    ap (λ t. parse_command (drop_cr t)) h.text
    ∙ ap parse_command (drop_cr-append (command_string r.command))
    ∙ parse_command-command_string r.command h.named h.word h.trimmed

-- The loop ended with this session.
abbrev pub EndsWith : {S : Type 0} → Session S → Option (Serving S) → Type 0
EndsWith c none = ⊥
EndsWith c (some s) = s.session ≡ c

-- What the loop has to go on with.
record Ready {S : Type 0} (s : Serving S) (bs : Bytes) : Type 0 where
  idle : IsIdle s.scanner
  input : s.conn.input ≡ bs

module _ {S : Type 0} (srv : Server S) where
  respond-Ready : (c : Session S) (s : Serving S) (bs : Bytes) → Ready s bs → Ready (respond c s) bs
  respond-Ready c s bs h = record { idle = h.idle; input = respond-input c s ∙ h.input }

  happen-Ready :
      (es : List (Beside S)) (s : Serving S) (bs : Bytes) → Ready s bs → Ready (happen es s) bs
  unfolding happen
  happen-Ready [] s bs h = h
  happen-Ready (e ∷ es) s bs h =
      happen-Ready es (respond (e s.session) s) bs (respond-Ready (e s.session) s bs h)

  -- A turn without a handshake.
  abbrev pub plain_turn : Round S → Command → Serving S → Serving S
  plain_turn rd cmd s = happen rd.leaving (respond (exec_command rd.env srv cmd s.session) s)

  pub turn-plain :
      (rd : Round S) (cmd : Command) (text : Bytes) (s : Serving S)
      → parse_command text ≡ cmd
      → begins_tls cmd ≡ false
      → turn srv rd text s ≡ plain_turn rd cmd s
  unfolding turn
  turn-plain rd cmd text s p b = simp (p, b)

  plain_turn-Ready :
      (rd : Round S) (cmd : Command) (s : Serving S) (bs : Bytes)
      → Ready s bs
      → Ready (plain_turn rd cmd s) bs
  plain_turn-Ready rd cmd s bs h =
      let c : Session S = exec_command rd.env srv cmd s.session in
      happen-Ready rd.leaving (respond c s) bs (respond-Ready c s bs h)

  module _ (rounds : ℕ → Round S) where
    -- The session behind a line: that of the reference.
    abbrev arrived : ℕ → Request → List Request → Session S → Session S
    arrived n r rs c = elim c.shutting_down [
      | true ↦ late c
      | false ↦
          script srv rounds (suc n) rs
            (after_events (rounds n).leaving (exec_command (rounds n).env srv r.command c))
    ]

    on_line-script :
        (n : ℕ) (following : Serving S → Option (Serving S)) (r : Request) (rs : List Request)
        (text : Bytes) (s : Serving S)
        → ((s' : Serving S)
            → Ready s' (encode_requests rs)
            → EndsWith (script srv rounds (suc n) rs s'.session) (following s'))
        → IsRequest r
        → text ≡ drop_cr (data_of r.items)
        → Ready s (encode_requests rs)
        → EndsWith
            (arrived n r rs (after_events (rounds n).arriving s.session))
            (on_line srv (rounds n) following text s)
    unfolding on_line
    on_line-script n following r rs text s continues request e h =
        subst (λ c. EndsWith (arrived n r rs c) (on_line srv (rounds n) following text s))
          (happen-session (rounds n).arriving s)
          (go (happen (rounds n).arriving s)
            (happen-Ready (rounds n).arriving s (encode_requests rs) h) _ refl)
      where
        go :
            (s' : Serving S)
            → Ready s' (encode_requests rs)
            → (b : Bool) → s'.session.shutting_down ≡ b
            → EndsWith
                (elim b [
                  | true ↦ late s'.session
                  | false ↦ script srv rounds (suc n) rs (
                      after_events
                        (rounds n).leaving
                        (exec_command (rounds n).env srv r.command s'.session))
                ])
                (elim b [
                  | true ↦ some (respond (late s'.session) s')
                  | false ↦ following (turn srv (rounds n) text s')
                ])
        go s' h' true f = refl
        go s' h' false f =
            subst
              (λ s''.
                EndsWith
                  (script srv rounds (suc n) rs (
                    after_events (rounds n).leaving
                      (exec_command (rounds n).env srv r.command s'.session)))
                  (following s''))
              (sym (
                turn-plain (rounds n) r.command text s'
                  (ap parse_command e ∙ parse_command-drop_cr r request) request.plain))
              (subst
                (λ c.
                  EndsWith (script srv rounds (suc n) rs c)
                    (following (plain_turn (rounds n) r.command s')))
                (happen-session (rounds n).leaving
                  (respond (exec_command (rounds n).env srv r.command s'.session) s'))
                (continues (plain_turn (rounds n) r.command s')
                  (plain_turn-Ready (rounds n) r.command s' (encode_requests rs) h')))

    on_scan-script :
        (n : ℕ) (following : Serving S → Option (Serving S)) (r : Request) (rs : List Request)
        (s : Serving S) (scanned : Scanned)
        → ((s' : Serving S)
            → Ready s' (encode_requests rs)
            → EndsWith (script srv rounds (suc n) rs s'.session) (following s'))
        → IsRequest r
        → Token (drop_cr (data_of r.items)) (behind r.items (encode_requests rs) s.conn) scanned
        → EndsWith
            (arrived n r rs (after_events (rounds n).arriving s.session))
            (on_scan srv (rounds n) following s scanned)
    unfolding on_scan
    on_scan-script n following r rs s none continues request token = token
    on_scan-script n following r rs s (some (none, sc, c)) continues request token = absurd token
    on_scan-script n following r rs s (some (some text, sc, c)) continues request token =
        on_line-script n following r rs text (record s { scanner = sc; conn = c }) continues request
          token.0 (record { idle = token.1; input = ap (λ k. k.input) token.2 })

    on_scan-end :
        (n : ℕ) (following : Serving S → Option (Serving S)) (s : Serving S) (left : TelnetConn)
        (scanned : Scanned)
        → Ended left scanned
        → EndsWith s.session (on_scan srv (rounds n) following s scanned)
    unfolding on_scan
    on_scan-end n following s left none h = h
    on_scan-end n following s left (some (none, sc, c)) h = refl
    on_scan-end n following s left (some (some text, sc, c)) h = absurd h

    serve_loop-script :
        (rs : List Request) (f n : ℕ) (s : Serving S)
        → AreRequests rs
        → length rs < f
        → Ready s (encode_requests rs)
        → EndsWith (script srv rounds n rs s.session) (serve_loop srv f rounds n s)
    unfolding serve_loop script
    serve_loop-script rs zero n s requests lt h = elim lt [ ]
    serve_loop-script [] (suc f) n s requests lt h =
        elim (Bool-cases (s.session.shutting_down || s.session.panicked)) [
          | inl b ↦ simp b refl
          | inr b ↦ simp b (
              on_scan-end n (serve_loop srv f rounds (suc n)) s (record s.conn { input = [] })
                (scan s.scanner s.conn) (scan-Ended s.scanner s.conn h.idle h.input))
        ]
    serve_loop-script (r ∷ rs) (suc f) n s requests lt h =
        elim (Bool-cases (s.session.shutting_down || s.session.panicked)) [
          | inl b ↦ simp b refl
          | inr b ↦ simp b (
              on_scan-script n (serve_loop srv f rounds (suc n)) r rs s (scan s.scanner s.conn)
                (λ s' h'. serve_loop-script rs f (suc n) s' requests.1 (omega arith) h') requests.0
                (scan-Token r.items (encode_requests rs) s.scanner s.conn h.idle requests.0.line
                  requests.0.short h.input))
        ]

    pub length-encode_requests : (rs : List Request) → length rs ≤ length (encode_requests rs)
    length-encode_requests [] = omega arith
    length-encode_requests (r ∷ rs) = omega (
      arith,
      length-encode_requests rs,
      length-append (encode r.items) (b'\n' ∷ encode_requests rs),
    )

    -- For a client whose input is a sequence of requests, each the text of a command with CR and a
    -- newline, carried by telnet items that may mix in other telnet commands, of fewer than 65536
    -- data bytes, with a non-empty name without white space and small letters, no white space at
    -- the ends of the argument, and none of them AUTH TLS: serve returns, and the session that it
    -- ends with is that of the reference, which executes the commands one after the other without
    -- any bytes, with whatever goes on beside them, and stops as the loop of serve does when the
    -- connection shuts down.
    pub serve-script :
        (rs : List Request) (c : TelnetConn) (store : S)
        → AreRequests rs
        → c.input ≡ encode_requests rs
        → EndsWith (script srv rounds 0 rs (new_conn store)) (serve srv rounds c store)
    unfolding serve
    serve-script rs c store requests e =
        let sent : TelnetConn = send_replies (new_conn store).replies c in
        serve_loop-script rs (suc (length c.input)) 0
          (record { conn = sent; scanner = new_scanner; session = new_conn store }) requests
          (omega (arith, length-encode_requests rs, ap (length {A = ℕ}) e))
          (record {
            idle = record { empty = refl; reading = refl; sound = record { fits = omega arith } };
            input = send_replies-input (new_conn store).replies c ∙ e;
          })

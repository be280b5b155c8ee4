-- ===== src/Serve/Sent.antt =====
-- ftp/conn.go: the bytes that the loop of `serve` sends, for the requests of a client that follows
-- the protocols.
use s3ftpgateway.Base.{
  ℕ, zero, suc, ◌<◌, ◌≡◌, refl, sym, ap, subst, ◌∙◌, Bool, true, false, Bool-cases, Option, none,
  some, ◌||◌, inl, inr, List, [], ◌∷◌, ◌++◌, append-nil, length, take-length-append, Bytes, arith,
}
use s3ftpgateway.Scanner.Lines.{Token, scan-Token, scan-Ended}
use s3ftpgateway.Scanner.Rounds.{Ended, IsIdle}
use s3ftpgateway.Scanner.{Scanned, drop_cr, new_scanner, scan}
use s3ftpgateway.Serve.Script.{
  Request, IsRequest, AreRequests, encode_requests, script, serve-script, EndsWith, plain_turn,
  turn-plain, length-encode_requests, parse_command-drop_cr,
}
use s3ftpgateway.Serve.Total.{send_replies-input, respond-input}
use s3ftpgateway.Serve.{
  Serving, Round, send_replies, Beside, respond, happen, turn, on_line, on_scan, serve_loop, serve,
  late,
}
use s3ftpgateway.Session.Closed.{exec_command-closed}
use s3ftpgateway.Session.Extends.{exec_command-Extends}
use s3ftpgateway.Session.Run.{exec_command, new_conn}
use s3ftpgateway.Session.{Server, Session}
use s3ftpgateway.Command.{Command, parse_command}
use s3ftpgateway.Telnet.Wire.{data_of, offered, asked, behind}
use s3ftpgateway.Telnet.{TelnetConn}
use s3ftpgateway.Serve.Texts.{
  Replies, texts, Advances, AreClean, Sent, send_replies-Sent, Tells, respond-Tells,
}

-- No option is offered or asked for.
abbrev pub AreSilent : List Request → Type 0
AreSilent [] = Unit
AreSilent (r ∷ rs) = (offered r.items ≡ []) × (asked r.items ≡ []) × AreSilent rs

-- Events that take no reply back and open no connection again.
abbrev pub AllAdvance : {S : Type 0} → List (Beside S) → Type 0
AllAdvance [] = Unit
AllAdvance {S} (e ∷ es) = ((c : Session S) → Advances c (e c)) × AllAdvance es

-- All that goes on beside the loop is of this kind.
pub record Adds {S : Type 0} (rounds : ℕ → Round S) : Type 0 where
  pub arrives : (n : ℕ) → AllAdvance (rounds n).arriving
  pub leaves : (n : ℕ) → AllAdvance (rounds n).leaving

-- The loop ended, and tells what was sent.
abbrev TellsAll : {S : Type 0} → Option (Serving S) → Type 0
TellsAll none = ⊥
TellsAll (some s) = Tells s

-- A round of the loop can begin.
record IsTelling {S : Type 0} (s : Serving S) (bs : Bytes) : Type 0 where
  idle : IsIdle s.scanner
  input : s.conn.input ≡ bs
  tells : Tells s

behind-Sent :
    (r : Request) (bs tail : Bytes) (c : TelnetConn)
    → offered r.items ≡ []
    → asked r.items ≡ []
    → Sent bs c
    → Sent bs (behind r.items tail c)
behind-Sent r bs tail c o a h = record {
  ready = record {
    works = h.ready.works;
    no_will = ap (λ x. c.willopt ++ x) o ∙ append-nil c.willopt ∙ h.ready.no_will;
    no_do = ap (λ x. c.doopt ++ x) a ∙ append-nil c.doopt ∙ h.ready.no_do;
  };
  flushed = h.flushed;
  bytes = h.bytes;
}

module _ {S : Type 0} (srv : Server S) (rounds : ℕ → Round S) (adds : Adds rounds) where
  respond-IsTelling :
      (c : Session S) (s : Serving S) (bs : Bytes)
      → Advances s.session c
      → IsTelling s bs
      → IsTelling (respond c s) bs
  respond-IsTelling c s bs ext h = record {
    idle = h.idle;
    input = respond-input c s ∙ h.input;
    tells = respond-Tells c s ext h.tells;
  }

  happen-IsTelling :
      (es : List (Beside S)) (s : Serving S) (bs : Bytes)
      → AllAdvance es
      → IsTelling s bs
      → IsTelling (happen es s) bs
  unfolding happen
  happen-IsTelling [] s bs a h = h
  happen-IsTelling (e ∷ es) s bs a h =
      happen-IsTelling es (respond (e s.session) s) bs a.1
        (respond-IsTelling (e s.session) s bs (a.0 s.session) h)

  plain_turn-IsTelling :
      (n : ℕ) (cmd : Command) (s : Serving S) (bs : Bytes)
      → IsTelling s bs
      → IsTelling (plain_turn srv (rounds n) cmd s) bs
  plain_turn-IsTelling n cmd s bs h =
      let c : Session S = exec_command (rounds n).env srv cmd s.session in
      happen-IsTelling (rounds n).leaving (respond c s) bs (adds.leaves n) (
        respond-IsTelling c s bs
          (record {
            extends = exec_command-Extends (rounds n).env srv cmd s.session;
            closed = exec_command-closed (rounds n).env srv cmd s.session;
          })
          h)

  on_line-Tells :
      (n : ℕ) (following : Serving S → Option (Serving S)) (r : Request) (bs text : Bytes)
      (s : Serving S)
      → ((s' : Serving S) → IsTelling s' bs → TellsAll (following s'))
      → IsRequest r
      → text ≡ drop_cr (data_of r.items)
      → IsTelling s bs
      → TellsAll (on_line srv (rounds n) following text s)
  unfolding on_line
  on_line-Tells n following r bs text s continues request e h =
      go (happen (rounds n).arriving s)
        (happen-IsTelling (rounds n).arriving s bs (adds.arrives n) h) _
    where
      go :
          (s' : Serving S)
          → IsTelling s' bs
          → (b : Bool)
          → TellsAll (elim b [
            | true ↦ some (respond (late s'.session) s')
            | false ↦ following (turn srv (rounds n) text s')
          ])
      go s' h' true =
          respond-Tells (late s'.session) s'
            (record { extends = take-length-append s'.session.replies _; closed = λ e. e }) h'.tells
      go s' h' false =
          subst (λ s''. TellsAll (following s''))
            (sym (
              turn-plain srv (rounds n) r.command text s'
                (ap parse_command e ∙ parse_command-drop_cr r request) request.plain))
            (continues (plain_turn srv (rounds n) r.command s')
              (plain_turn-IsTelling n r.command s' bs h'))

  on_scan-Tells :
      (n : ℕ) (following : Serving S → Option (Serving S)) (r : Request) (bs : Bytes)
      (s : Serving S) (scanned : Scanned)
      → ((s' : Serving S) → IsTelling s' bs → TellsAll (following s'))
      → IsRequest r
      → offered r.items ≡ []
      → asked r.items ≡ []
      → Tells s
      → Token (drop_cr (data_of r.items)) (behind r.items bs s.conn) scanned
      → TellsAll (on_scan srv (rounds n) following s scanned)
  unfolding on_scan
  on_scan-Tells n following r bs s none continues request o a tells token = token
  on_scan-Tells n following r bs s (some (none, sc, c)) continues request o a tells token =
      absurd token
  on_scan-Tells n following r bs s (some (some text, sc, c)) continues request o a tells token =
      on_line-Tells n following r bs text (record s { scanner = sc; conn = c }) continues request
        token.0
        (record {
          idle = token.1;
          input = ap (λ k. k.input) token.2;
          tells = λ opened clean.
              subst (Sent (texts s.session.replies)) (sym token.2)
                (behind-Sent r (texts s.session.replies) bs s.conn o a (tells opened clean));
        })

  on_scan-end_Tells :
      (n : ℕ) (following : Serving S → Option (Serving S)) (s : Serving S) (scanned : Scanned)
      → Tells s
      → Ended (record s.conn { input = [] }) scanned
      → TellsAll (on_scan srv (rounds n) following s scanned)
  unfolding on_scan
  on_scan-end_Tells n following s none tells h = h
  on_scan-end_Tells n following s (some (none, sc, c)) tells h = λ opened clean.
      let w : Sent (texts s.session.replies) s.conn = tells opened clean in
      subst (Sent (texts s.session.replies)) (sym h) (record {
        ready = record { works = w.ready.works; no_will = w.ready.no_will; no_do = w.ready.no_do };
        flushed = w.flushed;
        bytes = w.bytes;
      })
  on_scan-end_Tells n following s (some (some text, sc, c)) tells h = absurd h

  serve_loop-Tells :
      (rs : List Request) (f n : ℕ) (s : Serving S)
      → AreRequests rs
      → AreSilent rs
      → length rs < f
      → IsTelling s (encode_requests rs)
      → TellsAll (serve_loop srv f rounds n s)
  unfolding serve_loop
  serve_loop-Tells rs zero n s requests silent lt h = elim lt [ ]
  serve_loop-Tells [] (suc f) n s requests silent lt h =
      elim (Bool-cases (s.session.shutting_down || s.session.panicked)) [
        | inl b ↦ simp b h.tells
        | inr b ↦ simp b (
            on_scan-end_Tells n (serve_loop srv f rounds (suc n)) s (scan s.scanner s.conn) h.tells
              (scan-Ended s.scanner s.conn h.idle h.input))
      ]
  serve_loop-Tells (r ∷ rs) (suc f) n s requests silent lt h =
      elim (Bool-cases (s.session.shutting_down || s.session.panicked)) [
        | inl b ↦ simp b h.tells
        | inr b ↦ simp b (
            on_scan-Tells n (serve_loop srv f rounds (suc n)) r (encode_requests rs) s
              (scan s.scanner s.conn)
              (λ s' h'. serve_loop-Tells rs f (suc n) s' requests.1 silent.2 (omega arith) h')
              requests.0 silent.0 silent.1 h.tells
              (scan-Token r.items (encode_requests rs) s.scanner s.conn h.idle requests.0.line
                requests.0.short h.input))
      ]

  serve-Tells :
      (rs : List Request) (c : TelnetConn) (store : S)
      → AreRequests rs
      → AreSilent rs
      → c.input ≡ encode_requests rs
      → Sent [] c
      → TellsAll (serve srv rounds c store)
  unfolding serve
  serve-Tells rs c store requests silent e unsent =
      let greeting : Replies = (new_conn store).replies in
      serve_loop-Tells rs (suc (length c.input)) 0
        (record { conn = send_replies greeting c; scanner = new_scanner; session = new_conn store })
        requests silent (omega (arith, length-encode_requests srv rounds rs, ap (length {A = ℕ}) e))
        (record {
          idle = record { empty = refl; reading = refl; sound = record { fits = omega arith } };
          input = send_replies-input greeting c ∙ e;
          tells = λ opened clean. send_replies-Sent greeting [] c clean unsent;
        })

  -- For a client whose input is a sequence of requests, each the text of a command with CR and a
  -- newline, carried by telnet items that offer no option and ask for none, of fewer than 65536
  -- data bytes, with a non-empty name without white space and small letters, no white space at the
  -- ends of the argument, and none of them AUTH TLS; on a working connection with nothing sent and
  -- nothing waiting, where no event beside the loop takes a reply back or opens a closed
  -- connection again, and where the reference session ends with its connection not closed and its
  -- replies have codes of three digits and no IAC: serve returns, and the bytes that it has sent
  -- are the texts of these replies, one after the other, from the greeting on.
  pub serve-sent :
      (rs : List Request) (c : TelnetConn) (store : S)
      → AreRequests rs
      → AreSilent rs
      → c.input ≡ encode_requests rs
      → Sent [] c
      → AreClean (script srv rounds 0 rs (new_conn store)).replies
      → (script srv rounds 0 rs (new_conn store)).closed ≡ false
      → (s : Serving S) × (serve srv rounds c store ≡ some s)
        × (s.conn.sent ≡ texts (script srv rounds 0 rs (new_conn store)).replies)
  serve-sent rs c store requests silent e unsent clean opened =
      go (serve srv rounds c store) refl (serve-script srv rounds rs c store requests e)
        (serve-Tells rs c store requests silent e unsent)
    where
      reference : Session S
      reference = script srv rounds 0 rs (new_conn store)

      go :
          (o : Option (Serving S))
          → serve srv rounds c store ≡ o
          → EndsWith reference o
          → TellsAll o
          → (s : Serving S) × (serve srv rounds c store ≡ some s)
            × (s.conn.sent ≡ texts reference.replies)
      go none r ends tells = absurd ends
      go (some s) r ends tells = (
        s,
        r,
        (tells (ap (λ k. k.closed) ends ∙ opened)
              (subst (λ k. AreClean k.replies) (sym ends) clean)).bytes
            ∙ ap (λ k. texts k.replies) ends,
      )

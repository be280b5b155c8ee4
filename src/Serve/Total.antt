-- ===== src/Serve/Total.antt =====
-- ftp/conn.go: the loop of `serve` returns.
use s3ftpgateway.Base.{
  ℕ, zero, suc, ◌+◌, ◌≤◌, ◌<◌, ◌≡◌, refl, ap, ◌∙◌, Bool, true, false, Bool-cases, Option, none,
  some, ◌||◌, inl, inr, List, [], ◌∷◌, if◌then◌else◌, length, drop, Bytes, Result, arith,
  Result-cases,
}
use s3ftpgateway.Command.{parse_command}
use s3ftpgateway.Reply.{write_reply, write_then, last_line, first_line}
use s3ftpgateway.Scanner.Fuel.{IsScanner, Scans, scan-Scans}
use s3ftpgateway.Scanner.{Scanned, new_scanner, scan}
use s3ftpgateway.Serve.{
  Serving, Round, write_or_log, send_replies, Beside, respond, happen, after_events, upgrade_to_tls,
  begins_tls, turn, on_line, on_scan, serve_loop, serve, late,
}
use s3ftpgateway.Session.Run.{exec_command, new_conn}
use s3ftpgateway.Session.{Server, Session}
use s3ftpgateway.Telnet.Input.{SameInput, write-SameInput, flush-SameInput}
use s3ftpgateway.Telnet.{IoError, TelnetConn, write, flush}

write_then-SameInput :
    (bs : Bytes) (next : TelnetConn → Result IoError TelnetConn) (c : TelnetConn)
    → ((c' : TelnetConn) → SameInput c' (next c'))
    → SameInput c (write_then bs next c)
write_then-SameInput bs next c h = elim (Result-cases (write bs c)) [
  | inl ((n, c'), e) ↦ ground (arith, write-SameInput bs c, h c')
  | inr (x, e) ↦ ground (arith, e)
]

write_reply-SameInput :
    (code : ℕ) (msgs : List Bytes) (c : TelnetConn) → SameInput c (write_reply code msgs c)
unfolding write_reply
write_reply-SameInput code [] c = write_then-SameInput (last_line code []) flush c flush-SameInput
write_reply-SameInput code (m ∷ []) c =
    write_then-SameInput (last_line code m) flush c flush-SameInput
write_reply-SameInput code (m ∷ n ∷ ms) c =
    write_then-SameInput (first_line code m) (write_reply code (n ∷ ms)) c
      (write_reply-SameInput code (n ∷ ms))

pub send_replies-input :
    (rs : List (ℕ × List Bytes)) (c : TelnetConn) → (send_replies rs c).input ≡ c.input
unfolding send_replies
send_replies-input [] c = refl
send_replies-input ((code, msgs) ∷ rs) c =
    send_replies-input rs (write_or_log code msgs c)
    ∙ ground (arith, write_reply-SameInput code msgs c)

-- What the loop can still read, in a scanner that is sound.
abbrev left : {S : Type 0} → Serving S → ℕ
left s = length s.scanner.pending + length s.conn.input

-- The loop has no more to read than before.
abbrev Leaves : {S : Type 0} → Serving S → Serving S → Type 0
Leaves s s' = IsScanner s'.scanner × (left s' ≤ left s)

-- The loop came to its end.
abbrev pub Returned : {S : Type 0} → Option (Serving S) → Type 0
Returned none = ⊥
Returned (some s) = Unit

module _ {S : Type 0} where
  pub happen-session :
      (es : List (Beside S)) (s : Serving S) → (happen es s).session ≡ after_events es s.session
  unfolding happen after_events
  happen-session [] s = refl
  happen-session (e ∷ es) s = happen-session es (respond (e s.session) s)

  -- What is sent takes nothing from the input.
  pub respond-input : (c : Session S) (s : Serving S) → (respond c s).conn.input ≡ s.conn.input
  respond-input c s =
      ground (arith, send_replies-input (drop (length s.session.replies) c.replies) s.conn)

  respond-Leaves : (c : Session S) (s : Serving S) → IsScanner s.scanner → Leaves s (respond c s)
  respond-Leaves c s h = (h, omega (arith, ap (length {A = ℕ}) (respond-input c s)))

  happen-Leaves :
      (es : List (Beside S)) (s : Serving S) → IsScanner s.scanner → Leaves s (happen es s)
  unfolding happen
  happen-Leaves [] s h = (h, omega arith)
  happen-Leaves (e ∷ es) s h =
      let l1 = respond-Leaves (e s.session) s h in
      let l2 = happen-Leaves es (respond (e s.session) s) l1.0 in (l2.0, omega (arith, l1.1, l2.1))

  upgrade_to_tls-Leaves :
      (rd : Round S) (s : Serving S)
      → ((bs : Bytes) → length (rd.handshake_leaves bs) ≤ length bs)
      → IsScanner s.scanner
      → Leaves s (upgrade_to_tls rd s)
  unfolding upgrade_to_tls
  upgrade_to_tls-Leaves rd s shrinks h = ground (arith, shrinks s.conn.input)

  turn-Leaves :
      (srv : Server S) (rd : Round S) (text : Bytes) (s : Serving S)
      → ((bs : Bytes) → length (rd.handshake_leaves bs) ≤ length bs)
      → IsScanner s.scanner
      → Leaves s (turn srv rd text s)
  unfolding turn
  turn-Leaves srv rd text s shrinks h =
      let cmd = parse_command text in
      let done : Serving S = respond (exec_command rd.env srv cmd s.session) s in
      let behind : Serving S = if begins_tls cmd then upgrade_to_tls rd done else done in
      let l1 = respond-Leaves (exec_command rd.env srv cmd s.session) s h in
      let l2 : Leaves done behind = elim (Bool-cases (begins_tls cmd)) [
        | inl b ↦ simp b (upgrade_to_tls-Leaves rd done shrinks l1.0)
        | inr b ↦ simp b (l1.0, omega arith)
      ] in
      let l3 = happen-Leaves rd.leaving behind l2.0 in (l3.0, omega (arith, l1.1, l2.1, l3.1))

module _ {S : Type 0} (srv : Server S) (rd : Round S) (next : Serving S → Option (Serving S))
    (shrinks : (bs : Bytes) → length (rd.handshake_leaves bs) ≤ length bs) (bound : ℕ)
    (continues : (s : Serving S) → IsScanner s.scanner → left s < bound → Returned (next s)) where
  on_line-Returned :
      (text : Bytes) (s : Serving S)
      → IsScanner s.scanner
      → left s < bound
      → Returned (on_line srv rd next text s)
  unfolding on_line
  on_line-Returned text s h lt =
      let l1 = happen-Leaves rd.arriving s h in
      go (happen rd.arriving s) l1.0 (omega (arith, l1.1)) _
    where
      go :
          (s' : Serving S)
          → IsScanner s'.scanner
          → left s' < bound
          → (b : Bool)
          → Returned (elim b [
            | true ↦ some (respond (late s'.session) s')
            | false ↦ next (turn srv rd text s')
          ])
      go s' h' lt' true = tt
      go s' h' lt' false =
          let l2 = turn-Leaves srv rd text s' shrinks h' in
          continues (turn srv rd text s') l2.0 (omega (arith, l2.1))

  on_scan-Returned :
      (total : ℕ) (s : Serving S) (scanned : Scanned)
      → total ≤ bound
      → Scans total scanned
      → Returned (on_scan srv rd next s scanned)
  unfolding on_scan
  on_scan-Returned total s none le scans = scans
  on_scan-Returned total s (some (none, sc, c)) le scans = tt
  on_scan-Returned total s (some (some text, sc, c)) le scans =
      on_line-Returned text (record s { scanner = sc; conn = c }) scans.0 (omega (arith, scans.1))

module _ {S : Type 0} (srv : Server S) (rounds : ℕ → Round S)
    (shrinks : (n : ℕ) (bs : Bytes) → length ((rounds n).handshake_leaves bs) ≤ length bs) where
  serve_loop-Returned :
      (f n : ℕ) (s : Serving S)
      → IsScanner s.scanner
      → left s < f
      → Returned (serve_loop srv f rounds n s)
  unfolding serve_loop
  serve_loop-Returned zero n s h lt = elim lt [ ]
  serve_loop-Returned (suc f) n s h lt =
      elim (Bool-cases (s.session.shutting_down || s.session.panicked)) [
        | inl b ↦ simp b tt
        | inr b ↦ simp b (
            on_scan-Returned srv (rounds n) (serve_loop srv f rounds (suc n)) (shrinks n) f
              (serve_loop-Returned f (suc n)) (left s) s (scan s.scanner s.conn) (omega arith)
              (scan-Scans s.scanner s.conn h))
      ]

  -- Where a TLS handshake leaves no more bytes than there were: serve returns, whatever bytes the
  -- client sends, wherever they break off, and whatever goes on beside the loop.
  pub serve-Returned : (c : TelnetConn) (store : S) → Returned (serve srv rounds c store)
  unfolding serve
  serve-Returned c store =
      let sent : TelnetConn = send_replies (new_conn store).replies c in
      serve_loop-Returned (suc (length c.input)) 0
        (record { conn = sent; scanner = new_scanner; session = new_conn store })
        (record { fits = omega arith })
        (omega (arith, ap (length {A = ℕ}) (send_replies-input (new_conn store).replies c)))

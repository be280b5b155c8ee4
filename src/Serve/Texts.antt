-- ===== src/Serve/Texts.antt =====
-- ftp/conn.go: the replies of a session as bytes of its connection.
use s3ftpgateway.Base.{
  ℕ, zero, suc, ◌≤◌, ◌<◌, ◌≡◌, refl, sym, ap, subst, ◌∙◌, List, [], ◌∷◌, ◌++◌, append_assoc,
  append-nil, length, drop, take, true, false, Bytes, arith,
}
use s3ftpgateway.Reply.Read.{reply_text}
use s3ftpgateway.Reply.Sent.{IsReady, HaveNoIac, write_reply-reply_text}
use s3ftpgateway.Serve.{Serving, write_or_log, send_replies, respond}
use s3ftpgateway.Session.Extends.{Extends}
use s3ftpgateway.Session.{Session}
use s3ftpgateway.Telnet.{TelnetConn}

abbrev pub Replies : Type 0
Replies = List (ℕ × List Bytes)

-- Every reply as text, one after the other.
abbrev pub texts : Replies → Bytes
texts [] = []
texts ((code, msgs) ∷ rs) = reply_text code msgs ++ texts rs

-- Codes of three digits, and messages without IAC.
abbrev pub AreClean : Replies → Type 0
AreClean [] = Unit
AreClean ((code, msgs) ∷ rs) = (100 ≤ code) × (code < 1000) × HaveNoIac msgs × AreClean rs

texts-append : (xs ys : Replies) → texts (xs ++ ys) ≡ texts xs ++ texts ys
texts-append [] ys = refl
texts-append ((code, msgs) ∷ xs) ys =
    ap (λ t. reply_text code msgs ++ t) (texts-append xs ys)
    ∙ sym (append_assoc (reply_text code msgs) (texts xs) (texts ys))

take-drop : (n : ℕ) (xs : Replies) → take n xs ++ drop n xs ≡ xs
take-drop zero xs = refl
take-drop (suc n) [] = refl
take-drop (suc n) (x ∷ xs) = ap (◌∷◌ x) (take-drop n xs)

take-AreClean : (n : ℕ) (xs : Replies) → AreClean xs → AreClean (take n xs)
take-AreClean zero xs h = tt
take-AreClean (suc n) [] h = tt
take-AreClean (suc n) ((code, msgs) ∷ xs) h = (h.0, h.1, h.2, take-AreClean n xs h.3)

drop-AreClean : (n : ℕ) (xs : Replies) → AreClean xs → AreClean (drop n xs)
drop-AreClean zero xs h = h
drop-AreClean (suc n) [] h = tt
drop-AreClean (suc n) ((code, msgs) ∷ xs) h = drop-AreClean n xs h.3

-- A connection on which these bytes were sent, and nothing waits.
pub record Sent (bs : Bytes) (c : TelnetConn) : Type 0 where
  pub ready : IsReady c
  pub flushed : c.buffered ≡ []
  pub bytes : c.sent ≡ bs

pub send_replies-Sent :
    (rs : Replies) (bs : Bytes) (c : TelnetConn)
    → AreClean rs
    → Sent bs c
    → Sent (bs ++ texts rs) (send_replies rs c)
unfolding send_replies
send_replies-Sent [] bs c clean h = subst (λ b. Sent b c) (sym (append-nil bs)) h
send_replies-Sent ((code, msgs) ∷ rs) bs c clean h =
    let c' : TelnetConn = record c { sent = c.sent ++ reply_text code msgs } in
    let e : write_or_log code msgs c ≡ c' =
      ground
        (arith, write_reply-reply_text code clean.0 clean.1 msgs c h.ready h.flushed clean.2) in
    let h' : Sent (bs ++ reply_text code msgs) c' = record {
      ready = record { works = h.ready.works; no_will = h.ready.no_will; no_do = h.ready.no_do };
      flushed = h.flushed;
      bytes = ap (λ b. b ++ reply_text code msgs) h.bytes;
    } in
    subst (λ k. Sent (bs ++ (reply_text code msgs ++ texts rs)) (send_replies rs k)) (sym e)
      (subst (λ b. Sent b (send_replies rs c')) (append_assoc bs (reply_text code msgs) (texts rs))
        (send_replies-Sent rs (bs ++ reply_text code msgs) c' clean.3 h'))

-- The replies of the session are what was sent, if they are clean and the connection is open.
abbrev pub Tells : {S : Type 0} → Serving S → Type 0
Tells s =
    s.session.closed ≡ false → AreClean s.session.replies → Sent (texts s.session.replies) s.conn

-- No reply is taken back, and a closed connection stays closed.
pub record Advances {S : Type 0} (c c' : Session S) : Type 0 where
  pub extends : Extends c c'
  pub closed : c.closed ≡ true → c'.closed ≡ true

module _ {S : Type 0} where
  pub respond-Tells :
      (c : Session S) (s : Serving S) → Advances s.session c → Tells s → Tells (respond c s)
  respond-Tells c s adv tells not_closed clean =
      let ext : Extends s.session c = adv.extends in
      let still_open : s.session.closed ≡ false = ground (arith, adv.closed) in
      let n : ℕ = length s.session.replies in
      let old : Sent (texts s.session.replies) s.conn =
        tells still_open (subst AreClean ext (take-AreClean n c.replies clean)) in
      let whole : texts s.session.replies ++ texts (drop n c.replies) ≡ texts c.replies =
        ap (λ r. texts r ++ texts (drop n c.replies)) (sym ext)
        ∙ sym (texts-append (take n c.replies) (drop n c.replies))
        ∙ ap texts (take-drop n c.replies) in
      rw still_open (
        subst (λ b. Sent b (send_replies (drop n c.replies) s.conn)) whole
          (send_replies-Sent (drop n c.replies) (texts s.session.replies) s.conn
            (drop-AreClean n c.replies clean) old))

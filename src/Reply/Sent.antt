-- ===== src/Reply/Sent.antt =====
-- `writeReply` of ftp/conn.go over the telnet layer.
use s3ftpgateway.Base.{
  ℕ, ◌+◌, ◌≤◌, ◌<◌, ◌≡◌, refl, ◌∙◌, false, some, List, [], ◌∷◌, ◌++◌, length, append-nil,
  append_assoc, Bytes, Result, ok, arith,
}
use s3ftpgateway.Reply.Read.{
  reply_text, code_text-three, AreTexts, read_reply, lines_of, read_reply-reply_text,
}
use s3ftpgateway.Reply.{code_text, last_line, first_line, write_then, write_reply}
use s3ftpgateway.Telnet.{IoError, TelnetConn, write, flush}
use s3ftpgateway.Telnet.Write.{count_iac, escape_first, write-escape_first, written}
use s3ftpgateway.Telnet.Flush.{flush-written}
use s3ftpgateway.Text.Decimal.{three_digits}

-- A connection that works and has no option to refuse.
pub record IsReady (c : TelnetConn) : Type 0 where
  pub works : c.broken ≡ false
  pub no_will : c.willopt ≡ []
  pub no_do : c.doopt ≡ []

abbrev pub HaveNoIac : List Bytes → Type 0
HaveNoIac [] = Unit
HaveNoIac (m ∷ ms) = (count_iac m ≡ 0) × HaveNoIac ms

abbrev add : Bytes → TelnetConn → TelnetConn
add bs c = record c { buffered = c.buffered ++ bs }

add-IsReady : (bs : Bytes) (c : TelnetConn) → IsReady c → IsReady (add bs c)
add-IsReady bs c h = record { works = h.works; no_will = h.no_will; no_do = h.no_do }

escape_first-clean : (bs : Bytes) → count_iac bs ≡ 0 → escape_first bs ≡ bs
escape_first-clean [] h = refl
escape_first-clean (b ∷ bs) h = ground (arith, escape_first-clean bs)

count_iac-append : (xs ys : Bytes) → count_iac (xs ++ ys) ≡ count_iac xs + count_iac ys
count_iac-append [] ys = omega arith
count_iac-append (b ∷ bs) ys = omega (arith, count_iac-append bs ys)

written-add : (bs : Bytes) (c : TelnetConn) → IsReady c → written bs c ≡ add bs c
written-add bs c h = ground (arith, h.no_will, h.no_do)

write-add :
    (bs : Bytes) (c : TelnetConn)
    → IsReady c
    → count_iac bs ≡ 0
    → write bs c ≡ ok (length bs, add bs c)
write-add bs c h clean =
    ground (arith, write-escape_first bs c h.works, escape_first-clean bs clean, written-add bs c h)

write_then-add :
    (bs : Bytes) (next : TelnetConn → Result IoError TelnetConn) (c : TelnetConn)
    → IsReady c
    → count_iac bs ≡ 0
    → write_then bs next c ≡ next (add bs c)
write_then-add bs next c h clean = rw (write_then, write-add bs c h clean) refl

flush-sent :
    (c : TelnetConn)
    → IsReady c
    → flush c ≡ ok (record c { sent = c.sent ++ c.buffered; buffered = [] })
flush-sent c h = ground (arith, flush-written c h.works, append-nil c.buffered, h.no_will, h.no_do)

module _ (code : ℕ) (lo : 100 ≤ code) (hi : code < 1000) where
  count_iac-line :
      (sep : ℕ) (msg : Bytes)
      → sep < 255
      → count_iac msg ≡ 0
      → count_iac (code_text code ++ (sep ∷ (msg ++ (b'\r' ∷ b'\n' ∷ [])))) ≡ 0
  count_iac-line sep msg s h =
      rw (code_text-three code lo hi) (ground (arith, count_iac-append msg (b'\r' ∷ b'\n' ∷ [])))

  write_reply-add :
      (msgs : List Bytes) (c : TelnetConn)
      → IsReady c
      → HaveNoIac msgs
      → write_reply code msgs c
        ≡ ok (record c { sent = c.sent ++ (c.buffered ++ reply_text code msgs); buffered = [] })
  unfolding write_reply
  write_reply-add [] c h clean =
      write_then-add (last_line code []) flush c h (count_iac-line b' ' [] (omega arith) refl)
      ∙ flush-sent (add (last_line code []) c) (add-IsReady (last_line code []) c h)
  write_reply-add (m ∷ []) c h clean =
      write_then-add (last_line code m) flush c h (count_iac-line b' ' m (omega arith) clean.0)
      ∙ flush-sent (add (last_line code m) c) (add-IsReady (last_line code m) c h)
  write_reply-add (m ∷ n ∷ ms) c h clean =
      write_then-add (first_line code m) (write_reply code (n ∷ ms)) c h
        (count_iac-line b'-' m (omega arith) clean.0)
      ∙ write_reply-add (n ∷ ms) (add (first_line code m) c) (add-IsReady (first_line code m) c h)
          clean.1
      ∙ simp append_assoc

  -- For a code of three digits and messages without IAC, on a working connection with nothing to
  -- refuse and nothing buffered: writeReply sends one line for each message, or one line if there
  -- is none, and leaves nothing buffered.
  pub write_reply-reply_text :
      (msgs : List Bytes) (c : TelnetConn)
      → IsReady c
      → c.buffered ≡ []
      → HaveNoIac msgs
      → write_reply code msgs c ≡ ok (record c { sent = c.sent ++ reply_text code msgs })
  write_reply-reply_text msgs c h idle clean = ground (arith, write_reply-add msgs c h clean, idle)

  -- For a code of three digits and one or more messages without CR and IAC, on a working
  -- connection with nothing to refuse, nothing buffered and nothing sent: writeReply succeeds, and
  -- a client that reads replies as RFC 959 says gets the code and the messages back from what was
  -- sent, whatever follows.
  pub read_reply-write_reply :
      (m : Bytes) (ms : List Bytes) (rest : Bytes) (c : TelnetConn)
      → IsReady c
      → c.buffered ≡ []
      → c.sent ≡ []
      → HaveNoIac (m ∷ ms)
      → AreTexts (m ∷ ms)
      → (c' : TelnetConn) × (write_reply code (m ∷ ms) c ≡ ok c')
        × (read_reply (lines_of (c'.sent ++ rest))
            ≡ some (three_digits code, m ∷ ms, lines_of rest))
  read_reply-write_reply m ms rest c h idle unsent clean texts = (
    record c { sent = reply_text code (m ∷ ms) },
    ground (arith, write_reply-reply_text (m ∷ ms) c h idle clean, unsent),
    read_reply-reply_text code lo hi m ms rest texts,
  )

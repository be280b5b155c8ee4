-- ===== src/Reply/Tests.antt =====
-- `writeReply` of ftp/conn.go on two lines of text.
use s3ftpgateway.Base.{◌≡◌, refl, false, some, List, [], ◌∷◌, ◌++◌, Bytes, ok, arith}
use s3ftpgateway.Reply.Read.{read_reply, lines_of, AreTexts}
use s3ftpgateway.Reply.Sent.{IsReady, HaveNoIac, read_reply-write_reply}
use s3ftpgateway.Reply.{write_reply}
use s3ftpgateway.Telnet.{TelnetConn, eof}
use s3ftpgateway.Text.Decimal.{three_digits}

abbrev conn : TelnetConn
conn = record {
  input = [];
  end_of_input = eof;
  willopt = [];
  doopt = [];
  buffered = [];
  sent = [];
  broken = false;
}

abbrev conn-IsReady : IsReady conn
conn-IsReady = record { works = refl; no_will = refl; no_do = refl }

abbrev texts : List Bytes
texts = (65 ∷ 66 ∷ []) ∷ (67 ∷ []) ∷ []

texts-HaveNoIac : HaveNoIac texts
texts-HaveNoIac = ground arith

texts-AreTexts : AreTexts texts
texts-AreTexts = ground arith

read_reply-write_reply_example :
    (c' : TelnetConn) × (write_reply 211 texts conn ≡ ok c')
    × (read_reply (lines_of (c'.sent ++ 50 ∷ []))
        ≡ some (three_digits 211, texts, lines_of (50 ∷ [])))
read_reply-write_reply_example =
    read_reply-write_reply 211 (omega arith) (omega arith) (65 ∷ 66 ∷ []) ((67 ∷ []) ∷ []) (50 ∷ [])
      conn conn-IsReady refl refl texts-HaveNoIac texts-AreTexts

-- ===== src/Reply.antt =====
-- ftp/conn.go: `writeReply`, from the code and the messages to bytes of the control connection.
pub mod Read
pub mod Sent
mod Tests
use s3ftpgateway.Base.{
  ℕ, zero, suc, ◌-◌, List, [], ◌∷◌, ◌++◌, length, Bytes, codes, Result, ok, err,
}
use s3ftpgateway.Telnet.{IoError, TelnetConn, write, flush}
use s3ftpgateway.Text.{decimal}

abbrev zeros : ℕ → Bytes
zeros zero = []
zeros (suc n) = b'0' ∷ zeros n

-- `%03d`
unfoldable pub code_text : ℕ → Bytes
code_text code = let d = decimal code in zeros (3 - length d) ++ d

-- `"%03d %s\r\n"` and `"%03d-%s\r\n"`
abbrev pub last_line : ℕ → Bytes → Bytes
last_line code msg = code_text code ++ (b' ' ∷ (msg ++ (b'\r' ∷ b'\n' ∷ [])))

abbrev pub first_line : ℕ → Bytes → Bytes
first_line code msg = code_text code ++ (b'-' ∷ (msg ++ (b'\r' ∷ b'\n' ∷ [])))

-- A write, and what comes behind it.
abbrev pub write_then :
    Bytes → (TelnetConn → Result IoError TelnetConn) → TelnetConn → Result IoError TelnetConn
write_then bs next c = elim (write bs c) [ err e ↦ err e | ok (n, c') ↦ next c' ]

-- `writeReply`, without the count, which its caller drops.
unfoldable pub write_reply : ℕ → List Bytes → TelnetConn → Result IoError TelnetConn
write_reply code [] c = write_then (last_line code []) flush c
write_reply code (m ∷ []) c = write_then (last_line code m) flush c
write_reply code (m ∷ n ∷ ms) c = write_then (first_line code m) (write_reply code (n ∷ ms)) c

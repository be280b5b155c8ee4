-- ===== src/Serve/Late.antt =====
-- ftp/conn.go: the loop of `serve` on a connection that is shutting down.
use s3ftpgateway.Base.{ℕ, suc, ◌≡◌, true, some, [], Bytes, arith}
use s3ftpgateway.Scanner.{Scanner}
use s3ftpgateway.Serve.{Serving, Round, serve_loop, on_line, happen, respond, late}
use s3ftpgateway.Session.{Server, Session}
use s3ftpgateway.Telnet.{TelnetConn}

module _ {S : Type 0} (srv : Server S) where
  -- The loop of serve ends at its test on this session, and answers a line that it has read by then
  -- with 421 alone.
  abbrev pub TakesNoCommand : Session S → Type 0
  TakesNoCommand x =
      (rounds : ℕ → Round S) (f n : ℕ) (text : Bytes) (conn : TelnetConn) (scanner : Scanner)
      → let s : Serving S = record { conn = conn; scanner = scanner; session = x } in
        (serve_loop srv (suc f) rounds n s ≡ some s)
        × (on_line srv (record (rounds n) { arriving = [] }) (serve_loop srv f rounds (suc n)) text
              s
            ≡ some (respond (late x) s))

  pub shutting-TakesNoCommand : (x : Session S) → x.shutting_down ≡ true → TakesNoCommand x
  unfolding serve_loop on_line happen
  shutting-TakesNoCommand x shutting rounds f n text conn scanner =
      (ground (arith, shutting), ground (arith, shutting))

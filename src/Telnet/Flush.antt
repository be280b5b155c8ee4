-- ===== src/Telnet/Flush.antt =====
-- What `Flush` of ftp/telnet.go sends.
use s3ftpgateway.Base.{◌≡◌, false, [], ◌++◌, ok, arith}
use s3ftpgateway.Telnet.{TelnetConn, flush}
use s3ftpgateway.Telnet.Write.{written, write_option-refusals}

-- Flush on a working connection refuses every option that was noted, sends all that was buffered
-- and the refusals behind it, and leaves nothing buffered and nothing to refuse.
pub flush-written :
    (c : TelnetConn)
    → c.broken ≡ false
    → flush c
      ≡ ok (record (written [] c) { sent = c.sent ++ (written [] c).buffered; buffered = [] })
unfolding flush
flush-written c h = ground (arith, write_option-refusals c h)

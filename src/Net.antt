-- ===== src/Net.antt =====
-- What ftp/transfer.go, ftp/server.go and s3ftpgateway.go put around the listeners of the network.
mod Tests
use s3ftpgateway.Base.{
  ℕ, ◌+◌, ◌-◌, ◌*◌, ◌/◌, ◌%◌, Bool, true, false, Option, none, some, List, [], ◌∷◌, if◌then◌else◌,
  ltb, Bytes, codes, Result, ok, err, ◌≡◌, refl, arith,
}

-- `onceCloseListener` of ftp/transfer.go: whether its `once` has run, the error it keeps, and the
-- calls of `Close` on the listener under it.
pub record OnceCloseListener (E : Type 0) : Type 0 where
  pub ran : Bool
  pub close_err : Option E
  pub closes : ℕ

module _ {E : Type 0} where
  -- `Close`, with what the listener under it answers.
  unfoldable pub once_close : Option E → OnceCloseListener E → Option E × OnceCloseListener E
  once_close answer l =
      let l' =
        if l.ran then l else record { ran = true; close_err = answer; closes = l.closes + 1 } in
      (l'.close_err, l')

  -- A second call gives the error of the first, and does not reach the listener.
  once_close-once :
      (a b : Option E) (l : OnceCloseListener E)
      → once_close b (once_close a l).1 ≡ ((once_close a l).0, (once_close a l).1)
  unfolding once_close
  once_close-once a b l = ground arith

-- A TCP connection: its number, and the minutes between its keep-alives, if it sends them.
pub record TcpConn : Type 0 where
  pub number : ℕ
  pub keep_alive : Option ℕ

-- `Accept` of both types `tcpKeepAliveListener`; the server waits 10 minutes, the gateway 3.
unfoldable pub accept_keep_alive : {E : Type 0} → ℕ → Result E TcpConn → Result E TcpConn
accept_keep_alive minutes (err e) = err e
accept_keep_alive minutes (ok tc) = ok (record tc { keep_alive = some minutes })

abbrev pub server_keep_alive : ℕ
server_keep_alive = 10

abbrev pub gateway_keep_alive : ℕ
gateway_keep_alive = 3

-- A listener: of TCP, with keep-alive around it or not, or of another kind.
pub data NetListener : Type 0 where
  tcp_listener tcp_keep_alive_listener other_listener : ℕ → NetListener

-- `newTCPKeepAliveListener`
unfoldable pub new_tcp_keep_alive_listener : NetListener → NetListener
new_tcp_keep_alive_listener (tcp_listener n) = tcp_keep_alive_listener n
new_tcp_keep_alive_listener l = l

abbrev hex_digit : ℕ → ℕ
hex_digit d = if ltb d 10 then b'0' + d else b'a' + d - 10

-- `hex.EncodeToString`
pub encode_hex : Bytes → Bytes
encode_hex [] = []
encode_hex (b ∷ bs) = hex_digit (b / 16) ∷ hex_digit (b % 16) ∷ encode_hex bs

-- The session id of `newConn`, from four random bytes, if they are to be had.
unfoldable pub session_id : Option Bytes → Bytes
unfolding encode_hex
session_id none = codes "????????"
session_id (some buf) = encode_hex buf

-- The error of `passiveDataTransfer.Close`, from those of closing its connection, if there is one,
-- and its listener.
unfoldable pub close_transfer_error : {E : Type 0} → Option E → Option E → Option E
close_transfer_error (some e) listener_err = some e
close_transfer_error none listener_err = listener_err

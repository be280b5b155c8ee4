-- ===== src/Telnet/Tests.antt =====
-- ftp/telnet.go, on concrete bytes.
use s3ftpgateway.Base.{Bytes, ◌≤◌, ◌≡◌, refl, ◌↔◌, false, List, [], ◌∷◌, ◌++◌, ok, arith}
use s3ftpgateway.Telnet.{TelnetConn, eof, read, write}
use s3ftpgateway.Telnet.Wire.{
  Item, byte, will, do_option, subnegotiation, encode, whole_line, read-encode,
}
use s3ftpgateway.Telnet.Total.{Returns, read-Returns}
use s3ftpgateway.Telnet.Write.{written, write-escape_iff}

-- "A", an offer of option 1, "IAC", a request for option 6, a subnegotiation with an IAC in it.
abbrev message : List Item
message =
    byte 65 ∷ will 1 ∷ byte 255 ∷ do_option 6 ∷ subnegotiation 24 (1 ∷ 255 ∷ []) ∷ byte 66 ∷ []

abbrev conn : Bytes → TelnetConn
conn bs = record {
  input = bs;
  end_of_input = eof;
  willopt = [];
  doopt = [];
  buffered = [];
  sent = [];
  broken = false;
}

abbrev on_the_wire : TelnetConn
on_the_wire = conn (encode message ++ b'\n' ∷ 67 ∷ [])

read-encode_example : read 100 on_the_wire ≡ whole_line message (67 ∷ []) on_the_wire
read-encode_example =
    read-encode message 100 (67 ∷ []) on_the_wire (ground arith) (omega arith) refl

-- A subnegotiation that breaks off.
read-Returns_example : Returns 8 5 (read 8 (conn (65 ∷ 255 ∷ 250 ∷ 24 ∷ 255 ∷ [])))
read-Returns_example = read-Returns 8 (conn (65 ∷ 255 ∷ 250 ∷ 24 ∷ 255 ∷ []))

abbrev noted : TelnetConn
noted = record (conn []) { willopt = 1 ∷ []; doopt = 6 ∷ [] }

write-escape_iff_example :
    (write (65 ∷ 255 ∷ []) noted ≡ ok (2, written (65 ∷ 255 ∷ 255 ∷ []) noted)) ↔ (1 ≤ 1)
write-escape_iff_example = write-escape_iff (65 ∷ 255 ∷ []) noted refl

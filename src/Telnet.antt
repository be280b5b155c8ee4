-- ===== src/Telnet.antt =====
-- ftp/telnet.go: the telnet layer of the control connection, `dumbTelnetConn`. The connection under
-- it is the bytes that are still to come and how it ends after them; what is written is one
-- list of bytes behind a `bufio.Writer`. A broken writer refuses every byte, so an error leaves the
-- state as it was.
pub mod Wire
pub mod Chunk
pub mod Total
pub mod Write
pub mod Flush
pub mod Input
mod Tests
use s3ftpgateway.Base.{
  ℕ, zero, suc, ◌+◌, Bool, true, false, ◌||◌, Option, none, some, List, [], ◌∷◌, ◌++◌, ◌==◌,
  if◌then◌else◌, length, Bytes, Result, ok, err,
}

abbrev pub telnet_cmd_se : ℕ
telnet_cmd_se = 240

abbrev pub telnet_cmd_sb : ℕ
telnet_cmd_sb = 250

abbrev pub telnet_cmd_will : ℕ
telnet_cmd_will = 251

abbrev pub telnet_cmd_wont : ℕ
telnet_cmd_wont = 252

abbrev pub telnet_cmd_do : ℕ
telnet_cmd_do = 253

abbrev pub telnet_cmd_dont : ℕ
telnet_cmd_dont = 254

abbrev pub telnet_cmd_iac : ℕ
telnet_cmd_iac = 255

-- `io.EOF`, or any other error of the connection.
pub data IoError : Type 0 where
  eof broken_pipe : IoError

pub record TelnetConn : Type 0 where
  pub input : Bytes
  pub end_of_input : IoError
  pub willopt : Bytes
  pub doopt : Bytes
  -- bytes in the `bufio.Writer`, and bytes that were flushed
  pub buffered : Bytes
  pub sent : Bytes
  pub broken : Bool

-- What `Read(buf)` returns: the count, the bytes that it put into `buf`, and the error.
pub record ReadResult : Type 0 where
  pub count : ℕ
  pub bytes : Bytes
  pub error : Option IoError

abbrev pub Reading : Type 0
Reading = Option (ReadResult × TelnetConn)

-- `bufio.Reader.ReadByte`
read_byte : TelnetConn → Result IoError (ℕ × TelnetConn)
read_byte c = elim c.input [
  | [] ↦ err c.end_of_input
  | b ∷ rest ↦ ok (b, record c { input = rest })
]

-- The loop that looks for IAC SE; the flag is `foundIac`. The result is what follows.
skip_to_se : Bool → Bytes → Option Bytes
skip_to_se found [] = none
skip_to_se true (b ∷ rest) =
    let more = skip_to_se false rest in if b == telnet_cmd_se then some rest else more
skip_to_se false (b ∷ rest) = skip_to_se (b == telnet_cmd_iac) rest

abbrev resume_at : TelnetConn → Option Bytes → Result IoError TelnetConn
resume_at c none = err c.end_of_input
resume_at c (some rest) = ok (record c { input = rest })

ignore_subnegotiation : TelnetConn → Result IoError TelnetConn
unfolding read_byte skip_to_se
ignore_subnegotiation c = elim (read_byte c) [
  | err e ↦ err e
  | ok (_, c') ↦ resume_at c' (skip_to_se false c'.input)
]

read_will_option : TelnetConn → Result IoError TelnetConn
unfolding read_byte
read_will_option c = elim (read_byte c) [
  | err e ↦ err e
  | ok (opt, c') ↦ ok (record c' { willopt = c'.willopt ++ opt ∷ [] })
]

read_do_option : TelnetConn → Result IoError TelnetConn
unfolding read_byte
read_do_option c = elim (read_byte c) [
  | err e ↦ err e
  | ok (opt, c') ↦ ok (record c' { doopt = c'.doopt ++ opt ∷ [] })
]

-- WONT and DONT: the option is read and dropped.
skip_option : TelnetConn → Result IoError TelnetConn
unfolding read_byte
skip_option c = elim (read_byte c) [ err e ↦ err e | ok (_, c') ↦ ok c' ]

-- An error comes when the input is used up.
abbrev failed : ℕ → Bytes → IoError → TelnetConn → Reading
failed n got e c = some (record { count = n; bytes = got; error = some e }, record c { input = [] })

abbrev returned : Bytes → TelnetConn → Reading
returned got c = some (record { count = length got; bytes = got; error = none }, c)

-- The rest of the loop behind a command, or the return of its error.
after : (TelnetConn → Reading) → Bytes → TelnetConn → Result IoError TelnetConn → Reading
after next got c (err e) = failed (length got) got e c
after next got c (ok c') = next c'

-- The switch on the byte behind IAC. `skip` goes on with as much room, `push` with a byte stored.
read_code : (TelnetConn → Reading) → (ℕ → TelnetConn → Reading) → Bytes → ℕ → TelnetConn → Reading
unfolding after ignore_subnegotiation read_will_option read_do_option skip_option
read_code skip push got code c =
    if code == telnet_cmd_sb
    then after skip got c (ignore_subnegotiation c)
    else if code == telnet_cmd_will
    then after skip got c (read_will_option c)
    else if code == telnet_cmd_do
    then after skip got c (read_do_option c)
    else if code == telnet_cmd_wont || code == telnet_cmd_dont
    then after skip got c (skip_option c)
    else if code == telnet_cmd_iac
    then push telnet_cmd_iac c
    else skip c

-- One round of the loop of `Read`, with room left.
read_round : (TelnetConn → Reading) → (ℕ → TelnetConn → Reading) → Bytes → TelnetConn → Reading
unfolding read_byte read_code
read_round skip push got c = elim (read_byte c) [
  | err eof ↦ failed (length got) got eof c
  | err broken_pipe ↦ failed 0 got broken_pipe c
  | ok (b, c1) ↦
      if b == telnet_cmd_iac
      then elim (read_byte c1) [
        | err e ↦ failed 0 got e c1
        | ok (code, c2) ↦ read_code skip push got code c2
      ]
      else if b == b'\n'
      then returned (got ++ b ∷ []) c1
      else push b c1
]

-- The loop of `Read` with `room` bytes of `buf` left. Each round reads a byte, so fuel above the
-- length of the input is enough.
pub read_loop : ℕ → ℕ → Bytes → TelnetConn → Reading
unfolding read_round
read_loop zero room got c = none
read_loop (suc f) zero got c = returned got c
read_loop (suc f) (suc room) got c =
    read_round (read_loop f (suc room) got) (λ b. read_loop f room (got ++ b ∷ [])) got c

-- `Read` into a buffer of `size` bytes.
unfoldable pub read : ℕ → TelnetConn → Reading
unfolding read_loop
read size c = read_loop (suc (length c.input)) size [] c

-- `bufio.Writer.Write`
abbrev put : Bytes → TelnetConn → Result IoError TelnetConn
put bs c = if c.broken then err broken_pipe else ok (record c { buffered = c.buffered ++ bs })

-- The two loops of `writeOption`: each option behind IAC and the verb.
refuse : ℕ → Bytes → TelnetConn → Result IoError TelnetConn
refuse verb [] c = ok c
refuse verb (b ∷ bs) c = elim (put (telnet_cmd_iac ∷ verb ∷ b ∷ []) c) [
  | err e ↦ err e
  | ok c' ↦ refuse verb bs c'
]

pub write_option : TelnetConn → Result IoError TelnetConn
unfolding refuse
write_option c = elim (refuse telnet_cmd_wont c.willopt c) [
  | err e ↦ err e
  | ok c1 ↦
      let c2 = record c1 { willopt = [] } in
      elim (refuse telnet_cmd_dont c2.doopt c2) [
        | err e ↦ err e
        | ok c3 ↦ ok (record c3 { doopt = [] })
      ]
]

-- `bytes.IndexByte(buf, 255)` and the split there: what stands before, and from it on.
split_iac : Bytes → Option (Bytes × Bytes)
split_iac [] = none
split_iac (b ∷ bs) =
    if b == telnet_cmd_iac
    then some ([], b ∷ bs)
    else elim (split_iac bs) [ none ↦ none | some (pre, post) ↦ some (b ∷ pre, post) ]

-- The body of the loop of `Write`, which runs once: the last `Write` is followed by `break`.
write_data : Bytes → TelnetConn → Result IoError (ℕ × TelnetConn)
unfolding split_iac
write_data buf c = elim (split_iac buf) [
  | none ↦ elim (put buf c) [ err e ↦ err e | ok c1 ↦ ok (length buf, c1) ]
  | some (pre, post) ↦ elim (put pre c) [
    | err e ↦ err e
    | ok c1 ↦ elim (put (telnet_cmd_iac ∷ []) c1) [
      | err e ↦ err e
      | ok c2 ↦ elim (put post c2) [ err e ↦ err e | ok c3 ↦ ok (length pre + length post, c3) ]
    ]
  ]
]

unfoldable pub write : Bytes → TelnetConn → Result IoError (ℕ × TelnetConn)
unfolding write_option write_data
write buf c = elim (write_option c) [ err e ↦ err e | ok c' ↦ write_data buf c' ]

unfoldable pub flush : TelnetConn → Result IoError TelnetConn
unfolding write_option
flush c = elim (write_option c) [
  | err e ↦ err e
  | ok c' ↦
      if c'.broken
      then err broken_pipe
      else ok (record c' { sent = c'.sent ++ c'.buffered; buffered = [] })
]

-- ===== src/Scanner.antt =====
-- ftp/conn.go: `scanner`, the `bufio.Scanner` that cuts the control connection into lines. It reads
-- into a buffer that starts at 4096 bytes and doubles up to 65536, moves what it holds to the front
-- when it needs space, and gives up on a line that fills the buffer.
pub mod Fuel
pub mod Rounds
pub mod Lines
use s3ftpgateway.Base.{
  take, ◌++◌, ℕ, zero, suc, ◌+◌, ◌-◌, ◌*◌, ◌/◌, Bool, true, false, ◌&&◌, ◌||◌, not, Option, none,
  some, List, [], ◌∷◌, ◌==◌, ltb, leb, if◌then◌else◌, length, Bytes,
}
use s3ftpgateway.Telnet.{TelnetConn, ReadResult, read}

-- What is held begins at `start` of a buffer of `size` bytes; `ended` says that reading failed.
pub record Scanner : Type 0 where
  pub start : ℕ
  pub pending : Bytes
  pub size : ℕ
  pub ended : Bool

-- `bufio.NewScanner`
abbrev pub new_scanner : Scanner
new_scanner = record { start = 0; pending = []; size = 0; ended = false }

abbrev pub start_buf_size : ℕ
start_buf_size = 4096

abbrev pub max_token_size : ℕ
max_token_size = 65536

abbrev pub is_nil : Bytes → Bool
is_nil [] = true
is_nil (b ∷ bs) = false

-- One CR at the end is dropped.
pub drop_cr : Bytes → Bytes
drop_cr [] = []
drop_cr (b ∷ bs) = let rest = drop_cr bs in if b == b'\r' && is_nil bs then [] else b ∷ rest

-- What stands before the first newline, and behind it.
pub cut_line : Bytes → Option (Bytes × Bytes)
cut_line [] = none
cut_line (b ∷ bs) =
    if b == b'\n'
    then some ([], bs)
    else elim (cut_line bs) [ none ↦ none | some (pre, post) ↦ some (b ∷ pre, post) ]

-- `bufio.ScanLines`: the token, and what is left.
pub scan_lines : Bytes → Bool → Option (Bytes × Bytes)
unfolding drop_cr cut_line
scan_lines bs at_eof = elim (cut_line bs) [
  | some (pre, post) ↦ some (drop_cr pre, post)
  | none ↦ if at_eof && not (is_nil bs) then some (drop_cr bs, []) else none
]

abbrev held_to : Scanner → ℕ
held_to sc = sc.start + length sc.pending

-- The data goes to the front of the buffer if there is much empty space or space is needed.
pub shift : Scanner → Scanner
shift sc =
    if ltb 0 sc.start && (held_to sc == sc.size || ltb (sc.size / 2) sc.start)
    then record sc { start = 0 }
    else sc

abbrev min : ℕ → ℕ → ℕ
min a b = if leb a b then a else b

abbrev next_size : ℕ → ℕ
next_size n = min (if n == 0 then start_buf_size else n * 2) max_token_size

-- A full buffer is made larger; `none` is `ErrTooLong`.
pub grow : Scanner → Option Scanner
grow sc =
    if held_to sc == sc.size
    then (if leb max_token_size sc.size
        then none
        else some (record sc { start = 0; size = next_size sc.size }))
    else some sc

-- How a call of `Scan` ends: with a token, or with false.
abbrev pub Scanned : Type 0
Scanned = Option (Option Bytes × Scanner × TelnetConn)

-- What a read adds to the buffer.
abbrev filled : ReadResult → Scanner → Scanner
filled r sc = record sc {
  pending = sc.pending ++ take r.count r.bytes;
  ended = elim r.error [ none ↦ false | some e ↦ true ];
}

abbrev advanced : Bytes → Scanner → Scanner
advanced rest sc = record sc {
  start = sc.start + (length sc.pending - length rest);
  pending = rest;
}

-- The part of a round that reads, and the rest of the loop behind it.
read_more : (Scanner → TelnetConn → Scanned) → Scanner → TelnetConn → Scanned
unfolding shift grow
read_more next sc c = elim (grow (shift sc)) [
  | none ↦ some (none, record (shift sc) { ended = true }, c)
  | some sc' ↦ elim (read (sc'.size - held_to sc') c) [
    | none ↦ none
    | some (r, c') ↦ next (filled r sc') c'
  ]
]

-- The loop of `Scan`. A round ends the call or reads from the connection, and a read that does not
-- fail uses input up, so fuel above the length of the input is enough. Of no data no line is cut.
pub scan_loop : ℕ → Scanner → TelnetConn → Scanned
unfolding scan_lines read_more
scan_loop zero sc c = none
scan_loop (suc f) sc c = elim (scan_lines sc.pending sc.ended) [
  | some (token, rest) ↦ some (some token, advanced rest sc, c)
  | none ↦
      if sc.ended
      then some (none, record sc { start = 0; pending = [] }, c)
      else read_more (scan_loop f) sc c
]

-- `Scan` and `Text`: the token, or none at the end.
unfoldable pub scan : Scanner → TelnetConn → Scanned
unfolding scan_loop
scan sc c = scan_loop (suc (suc (length c.input))) sc c

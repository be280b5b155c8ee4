-- ===== src/Telnet/Wire.antt =====
-- The telnet protocol seen from the client: data bytes and commands, and how `Read` takes them.
use s3ftpgateway.Base.{
  Bytes, ℕ, zero, suc, ◌+◌, ◌<◌, ◌≡◌, ◌≢◌, refl, sym, subst, ◌∙◌, false, none, some, List, [], ◌∷◌,
  ◌++◌, ◌==◌, if◌then◌else◌, length, append-nil, append_assoc, length-append, arith,
}
use s3ftpgateway.Telnet.{
  telnet_cmd_se, telnet_cmd_sb, telnet_cmd_will, telnet_cmd_wont, telnet_cmd_do, telnet_cmd_dont,
  telnet_cmd_iac, TelnetConn, Reading, read_loop, read, returned, skip_to_se,
}

-- What a client can send. A subnegotiation has an option and parameters; `other` is a command of
-- two bytes.
pub data Item : Type 0 where
  byte will wont do_option dont other : ℕ → Item
  subnegotiation : ℕ → Bytes → Item

-- A data byte, and a parameter: IAC is sent twice.
abbrev pub escape : Bytes → Bytes
escape [] = []
escape (b ∷ bs) = let rest = escape bs in if b == telnet_cmd_iac then b ∷ b ∷ rest else b ∷ rest

abbrev pub encode_item : Item → Bytes
encode_item (byte b) = escape (b ∷ [])
encode_item (will opt) = telnet_cmd_iac ∷ telnet_cmd_will ∷ opt ∷ []
encode_item (wont opt) = telnet_cmd_iac ∷ telnet_cmd_wont ∷ opt ∷ []
encode_item (do_option opt) = telnet_cmd_iac ∷ telnet_cmd_do ∷ opt ∷ []
encode_item (dont opt) = telnet_cmd_iac ∷ telnet_cmd_dont ∷ opt ∷ []
encode_item (other code) = telnet_cmd_iac ∷ code ∷ []
encode_item (subnegotiation opt params) =
    telnet_cmd_iac ∷ telnet_cmd_sb ∷ opt ∷ (escape params ++ (telnet_cmd_iac ∷ telnet_cmd_se ∷ []))

abbrev pub encode : List Item → Bytes
encode [] = []
encode (i ∷ is) = encode_item i ++ encode is

-- The data, the options offered, and the options asked for.
abbrev pub data_of : List Item → Bytes
data_of [] = []
data_of (byte b ∷ is) = b ∷ data_of is
data_of (i ∷ is) = data_of is

abbrev pub offered : List Item → Bytes
offered [] = []
offered (will opt ∷ is) = opt ∷ offered is
offered (i ∷ is) = offered is

abbrev pub asked : List Item → Bytes
asked [] = []
asked (do_option opt ∷ is) = opt ∷ asked is
asked (i ∷ is) = asked is

-- Data without a newline, and two-byte commands other than those that take more.
abbrev pub IsItem : Item → Type 0
IsItem (byte b) = b ≢ b'\n'
IsItem (other code) = code < telnet_cmd_sb
IsItem _ = Unit

abbrev pub IsLine : List Item → Type 0
IsLine [] = Unit
IsLine (i ∷ is) = IsItem i × IsLine is

skip_to_se-escape :
    (params rest : Bytes)
    → skip_to_se false (escape params ++ (telnet_cmd_iac ∷ telnet_cmd_se ∷ rest)) ≡ some rest
unfolding skip_to_se
skip_to_se-escape [] rest = refl
skip_to_se-escape (b ∷ bs) rest = ground (arith, skip_to_se-escape bs rest)

-- The connection behind a sequence of items, with `rest` still to come.
abbrev pub behind : List Item → Bytes → TelnetConn → TelnetConn
behind is rest c = record c {
  input = rest;
  willopt = c.willopt ++ offered is;
  doopt = c.doopt ++ asked is;
}

abbrev pub with_input : Bytes → TelnetConn → TelnetConn
with_input bs c = record c { input = bs }

-- One round of the loop takes one item; a data byte takes room.
pub read_loop-item :
    (f room : ℕ) (got tail : Bytes) (i : Item) (c : TelnetConn)
    → IsItem i
    → data_of (i ∷ []) ≡ []
    → read_loop (suc f) (suc room) got (with_input (encode_item i ++ tail) c)
      ≡ read_loop f (suc room) got (behind (i ∷ []) tail c)
unfolding read_loop
read_loop-item f room got tail (byte b) c h e = absurd (ground arith)
read_loop-item f room got tail (will opt) c h e = simp append-nil
read_loop-item f room got tail (wont opt) c h e = simp append-nil
read_loop-item f room got tail (do_option opt) c h e = simp append-nil
read_loop-item f room got tail (dont opt) c h e = simp append-nil
read_loop-item f room got tail (other code) c h e = simp append-nil (ground arith)
read_loop-item f room got tail (subnegotiation opt params) c h e =
    simp (append-nil, append_assoc, skip_to_se-escape)

pub read_loop-byte :
    (f room b : ℕ) (got tail : Bytes) (c : TelnetConn)
    → b ≢ b'\n'
    → read_loop (suc f) (suc room) got (with_input (escape (b ∷ []) ++ tail) c)
      ≡ read_loop f room (got ++ b ∷ []) (with_input tail c)
unfolding read_loop
read_loop-byte f room b got tail c h = ground arith

-- What the loop returns for a whole line.
abbrev pub line_read : List Item → Bytes → Bytes → TelnetConn → Reading
line_read is got rest c = returned (got ++ (data_of is ++ b'\n' ∷ [])) (behind is rest c)

-- Extending a line by an item that carries no data.
command-line_read :
    (i : Item) (is : List Item) (got rest : Bytes) (c : TelnetConn)
    → data_of (i ∷ []) ≡ []
    → line_read is got rest (behind (i ∷ []) (encode is ++ b'\n' ∷ rest) c)
      ≡ line_read (i ∷ is) got rest c
command-line_read (byte b) is got rest c e = absurd (ground arith)
command-line_read (will opt) is got rest c e = simp (append_assoc, append-nil)
command-line_read (do_option opt) is got rest c e = simp (append_assoc, append-nil)
command-line_read _ is got rest c e = simp append-nil

pub length-encode_item : (i : Item) → 0 < length (encode_item i)
length-encode_item (byte b) = ground arith
length-encode_item _ = omega arith

read_loop-encode :
    (is : List Item) (f room : ℕ) (got rest : Bytes) (c : TelnetConn)
    → IsLine is
    → length (encode is) < f
    → length (data_of is) < room
    → read_loop f room got (with_input (encode is ++ b'\n' ∷ rest) c) ≡ line_read is got rest c
read_loop-encode [] zero room got rest c h lf lr = elim lf [ ]
read_loop-encode is (suc f) zero got rest c h lf lr = elim lr [ ]
read_loop-encode [] (suc f) (suc room) got rest c h lf lr = unfold read_loop in simp append-nil
read_loop-encode (i ∷ is) zero room got rest c h lf lr = elim lf [ ]
read_loop-encode (byte b ∷ is) (suc f) (suc room) got rest c h lf lr = rw append_assoc (
    read_loop-byte f room b got (encode is ++ b'\n' ∷ rest) c h.0
    ∙ read_loop-encode is f room (got ++ b ∷ []) rest c h.1
        (omega
          (arith, length-append (encode_item (byte b)) (encode is), length-encode_item (byte b)))
        (omega arith)
    ∙ simp append_assoc)
read_loop-encode (i ∷ is) (suc f) (suc room) got rest c h lf lr = rw append_assoc (
    read_loop-item f room got (encode is ++ b'\n' ∷ rest) i c h.0 refl
    ∙ read_loop-encode is f (suc room) got rest (behind (i ∷ []) (encode is ++ b'\n' ∷ rest) c) h.1
        (omega (arith, length-append (encode_item i) (encode is), length-encode_item i)) lr
    ∙ command-line_read i is got rest c refl)

-- A line taken off the input, with its options noted.
abbrev pub whole_line : List Item → Bytes → TelnetConn → Reading
whole_line is rest c = some (
  record { count = length (data_of is) + 1; bytes = data_of is ++ b'\n' ∷ []; error = none },
  record c { input = rest; willopt = c.willopt ++ offered is; doopt = c.doopt ++ asked is },
)

-- Read into a large enough buffer takes one line off the input, whatever telnet commands the
-- client mixes in: it returns the data with its newline, keeps what follows for the next call, and
-- notes each WILL and DO for a refusal.
pub read-encode :
    (is : List Item) (size : ℕ) (rest : Bytes) (c : TelnetConn)
    → IsLine is
    → length (data_of is) < size
    → c.input ≡ encode is ++ b'\n' ∷ rest
    → read size c ≡ whole_line is rest c
unfolding read
read-encode is size rest c h lr e =
    let line : Bytes = encode is ++ b'\n' ∷ rest in
    subst (λ bs. read_loop (suc (length bs)) size [] (with_input bs c) ≡ whole_line is rest c)
      (sym e)
      (read_loop-encode is (suc (length line)) size [] rest c h
          (omega (arith, length-append (encode is) (b'\n' ∷ rest))) lr
        ∙ rw (length-append (data_of is) (b'\n' ∷ [])))

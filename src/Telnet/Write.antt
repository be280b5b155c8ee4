-- ===== src/Telnet/Write.antt =====
-- `Write` of ftp/telnet.go: refusals, data and the escape of IAC.
use s3ftpgateway.Base.{
  Bytes, ℕ, ◌+◌, ◌≤◌, ◌<◌, ◌≡◌, ◌≢◌, refl, ap, ◌∙◌, false, none, some, List, [], ◌∷◌, ◌++◌, ◌==◌,
  if◌then◌else◌, length, length-append, append-nil, append_assoc, ok, ◌↔◌, Bool-cases, inl, inr,
  arith,
}
use s3ftpgateway.Telnet.{
  TelnetConn, telnet_cmd_iac, telnet_cmd_wont, telnet_cmd_dont, refuse, write_option, split_iac,
  write_data, write, ReadResult, read,
}
use s3ftpgateway.Telnet.Wire.{
  Item, byte, escape, encode, data_of, IsLine, offered, asked, read-encode,
}

-- IAC, a verb and an option, for each option.
abbrev pub refusals : ℕ → Bytes → Bytes
refusals verb [] = []
refusals verb (b ∷ bs) = telnet_cmd_iac ∷ verb ∷ b ∷ refusals verb bs

abbrev pub count_iac : Bytes → ℕ
count_iac [] = 0
count_iac (b ∷ bs) = (if b == telnet_cmd_iac then 1 else 0) + count_iac bs

-- Only the first IAC is doubled.
abbrev pub escape_first : Bytes → Bytes
escape_first [] = []
escape_first (b ∷ bs) = if b == telnet_cmd_iac then b ∷ b ∷ bs else b ∷ escape_first bs

-- The connection behind a write of `bs`: nothing is left to refuse.
abbrev pub written : Bytes → TelnetConn → TelnetConn
written bs c = record c {
  willopt = [];
  doopt = [];
  buffered =
      c.buffered
      ++ (refusals telnet_cmd_wont c.willopt ++ (refusals telnet_cmd_dont c.doopt ++ bs));
}

refuse-refusals :
    (verb : ℕ) (opts : Bytes) (c : TelnetConn)
    → c.broken ≡ false
    → refuse verb opts c ≡ ok (record c { buffered = c.buffered ++ refusals verb opts })
unfolding refuse
refuse-refusals verb [] c h = simp append-nil
refuse-refusals verb (b ∷ bs) c h =
    let mine : Bytes = telnet_cmd_iac ∷ verb ∷ b ∷ [] in
    ground (
      arith,
      refuse-refusals verb bs (record c { buffered = c.buffered ++ mine }) h,
      append_assoc c.buffered mine (refusals verb bs),
    )

pub write_option-refusals : (c : TelnetConn) → c.broken ≡ false → write_option c ≡ ok (written [] c)
unfolding write_option
write_option-refusals c h =
    let c' : TelnetConn = record c {
      buffered = c.buffered ++ refusals telnet_cmd_wont c.willopt;
      willopt = [];
    } in
    ground (
      arith,
      refuse-refusals telnet_cmd_wont c.willopt c h,
      refuse-refusals telnet_cmd_dont c.doopt c' h,
      append_assoc c.buffered (refusals telnet_cmd_wont c.willopt)
          (refusals telnet_cmd_dont c.doopt),
      append-nil (refusals telnet_cmd_dont c.doopt),
    )

-- What the search for an IAC has found.
data Split (buf : Bytes) : Type 0 where
  clean : split_iac buf ≡ none → escape_first buf ≡ buf → Split buf
  cut :
      (pre post : Bytes)
      → split_iac buf ≡ some (pre, post)
      → escape_first buf ≡ pre ++ telnet_cmd_iac ∷ post
      → length pre + length post ≡ length buf
      → Split buf

split_iac-Split : (buf : Bytes) → Split buf
unfolding split_iac
split_iac-Split [] = clean refl refl
split_iac-Split (b ∷ bs) = elim (Bool-cases (b == telnet_cmd_iac)) [
  | inl iac ↦ cut [] (b ∷ bs) (ground arith) (ground arith) (omega arith)
  | inr data_byte ↦ elim (split_iac-Split bs) [
    | clean e f ↦ clean (ground arith) (ground arith)
    | cut pre post e f l ↦ cut (b ∷ pre) post (ground arith) (ground arith) (omega arith)
  ]
]

write_data-escape_first :
    (buf : Bytes) (c : TelnetConn)
    → c.broken ≡ false
    → write_data buf c ≡ ok (length buf, record c { buffered = c.buffered ++ escape_first buf })
unfolding write_data
write_data-escape_first buf c h = elim (split_iac-Split buf) [
  | clean e f ↦ ground arith
  | cut pre post e f l ↦ ground (
    arith,
    append_assoc (c.buffered ++ pre) (telnet_cmd_iac ∷ []) post,
    append_assoc c.buffered pre (telnet_cmd_iac ∷ post),
  )
]

-- Write on a working connection refuses every option that was noted, WILL by WONT and DO by DONT,
-- forgets them, puts the data behind with its first IAC doubled, and returns the length of the
-- data.
pub write-escape_first :
    (buf : Bytes) (c : TelnetConn)
    → c.broken ≡ false
    → write buf c ≡ ok (length buf, written (escape_first buf) c)
unfolding write
write-escape_first buf c h = ground (
  arith,
  write_option-refusals c h,
  write_data-escape_first buf (written [] c) h,
  append_assoc c.buffered (refusals telnet_cmd_wont c.willopt ++ refusals telnet_cmd_dont c.doopt)
      (escape_first buf),
  append_assoc (refusals telnet_cmd_wont c.willopt) (refusals telnet_cmd_dont c.doopt)
      (escape_first buf),
  append-nil (refusals telnet_cmd_dont c.doopt),
)

length-escape : (buf : Bytes) → length (escape buf) ≡ length buf + count_iac buf
length-escape [] = omega arith
length-escape (b ∷ bs) = ground (arith, length-escape bs)

length-escape_first : (buf : Bytes) → length (escape_first buf) ≤ length buf + 1
length-escape_first [] = omega arith
length-escape_first (b ∷ bs) = ground (arith, length-escape_first bs)

escape-clean : (buf : Bytes) → count_iac buf ≡ 0 → escape buf ≡ buf
escape-clean [] h = refl
escape-clean (b ∷ bs) h = ground (arith, escape-clean bs)

escape_first-escape : (buf : Bytes) → count_iac buf ≤ 1 → escape_first buf ≡ escape buf
escape_first-escape [] h = refl
escape_first-escape (b ∷ bs) h = ground (arith, escape_first-escape bs, escape-clean bs)

-- On a working connection Write escapes its data as the protocol wants exactly when at most one
-- byte of it is IAC.
pub write-escape_iff :
    (buf : Bytes) (c : TelnetConn)
    → c.broken ≡ false
    → (write buf c ≡ ok (length buf, written (escape buf) c)) ↔ (count_iac buf ≤ 1)
write-escape_iff buf c h = (
  λ e.
      let same : (written (escape_first buf) c).buffered ≡ (written (escape buf) c).buffered =
        cc (write-escape_first buf c h, e) in
      omega (
        arith,
        ap (length {A = ℕ}) same,
        length-append c.buffered (
            refusals telnet_cmd_wont c.willopt ++ (refusals telnet_cmd_dont c.doopt ++ escape buf)),
        length-append c.buffered (
            refusals telnet_cmd_wont c.willopt
            ++ (refusals telnet_cmd_dont c.doopt ++ escape_first buf)),
        length-append (refusals telnet_cmd_wont c.willopt)
            (refusals telnet_cmd_dont c.doopt ++ escape buf),
        length-append (refusals telnet_cmd_wont c.willopt)
            (refusals telnet_cmd_dont c.doopt ++ escape_first buf),
        length-append (refusals telnet_cmd_dont c.doopt) (escape buf),
        length-append (refusals telnet_cmd_dont c.doopt) (escape_first buf),
        length-escape buf,
        length-escape_first buf,
      ),
  λ le. write-escape_first buf c h ∙ rw (escape_first-escape buf le),
)

abbrev HasNoNewline : Bytes → Type 0
HasNoNewline [] = Unit
HasNoNewline (b ∷ bs) = (b ≢ b'\n') × HasNoNewline bs

-- Data alone, as a sequence of items.
abbrev pub items : Bytes → List Item
items [] = []
items (b ∷ bs) = byte b ∷ items bs

encode-items : (buf : Bytes) → encode (items buf) ≡ escape buf
encode-items [] = refl
encode-items (b ∷ bs) = ground (arith, encode-items bs)

data_of-items : (buf : Bytes) → data_of (items buf) ≡ buf
data_of-items [] = refl
data_of-items (b ∷ bs) = ap (◌∷◌ b) (data_of-items bs)

items-IsLine : (buf : Bytes) → HasNoNewline buf → IsLine (items buf)
items-IsLine [] h = tt
items-IsLine (b ∷ bs) h = (h.0, items-IsLine bs h.1)

escape_first-line :
    (buf : Bytes) → count_iac buf ≤ 1 → escape_first (buf ++ b'\n' ∷ []) ≡ escape buf ++ b'\n' ∷ []
escape_first-line [] h = refl
escape_first-line (b ∷ bs) h = ground (arith, escape_first-line bs, escape-clean bs)

-- A line with at most one IAC and no newline inside, written on a working and idle connection, is
-- read back by a peer with a large enough buffer, newline included, and what follows it stays for
-- the next call.
pub read-write :
    (buf rest : Bytes) (size : ℕ) (c peer : TelnetConn)
    → c.broken ≡ false
    → c.willopt ≡ []
    → c.doopt ≡ []
    → c.buffered ≡ []
    → HasNoNewline buf
    → count_iac buf ≤ 1
    → length buf < size
    → (c' : TelnetConn) × (write (buf ++ b'\n' ∷ []) c ≡ ok (length buf + 1, c'))
      × ((r : ReadResult) × (p' : TelnetConn) × (read size
              (record peer { input = c'.buffered ++ rest })
            ≡ some (r, p'))
          × (r.bytes ≡ buf ++ b'\n' ∷ [])
          × (r.error ≡ none)
          × (p'.input ≡ rest))
read-write buf rest size c peer works no_will no_do idle no_newline few fits =
    let line : Bytes = buf ++ b'\n' ∷ [] in
    let c' : TelnetConn = written (escape_first line) c in
    let wire : c'.buffered ++ rest ≡ encode (items buf) ++ b'\n' ∷ rest = ground (
      arith,
      escape_first-line buf few,
      encode-items buf,
      append_assoc (escape buf) (b'\n' ∷ []) rest,
    ) in
    let p : TelnetConn = record peer { input = c'.buffered ++ rest } in
    (
      c',
      write-escape_first line c works ∙ rw (length-append buf (b'\n' ∷ [])),
      (
        record {
          count = length (data_of (items buf)) + 1;
          bytes = data_of (items buf) ++ b'\n' ∷ [];
          error = none;
        },
        record p {
          input = rest;
          willopt = p.willopt ++ offered (items buf);
          doopt = p.doopt ++ asked (items buf);
        },
        read-encode (items buf) size rest p (items-IsLine buf no_newline)
            (rw (data_of-items buf) fits) wire,
        rw (data_of-items buf),
        refl,
        refl,
      ),
    )

-- ===== src/Scanner/Lines.antt =====
-- `bufio.Scanner.Scan` over the telnet layer: a line of the client is one token.
use s3ftpgateway.Base.{
  ℕ, zero, suc, ◌+◌, ◌-◌, ◌≤◌, ◌<◌, ◌≡◌, refl, sym, ap, subst, ◌∙◌, false, leb, Bool-cases, none,
  some, inl, inr, List, [], ◌∷◌, ◌++◌, length, take, take-length, length-append, append_assoc,
  append-nil, Bytes, arith,
}
use s3ftpgateway.Scanner.Fuel.{length-filled}
use s3ftpgateway.Scanner.{
  Scanner, cut_line, drop_cr, held_to, filled, advanced, Scanned, scan_loop, scan,
}
use s3ftpgateway.Telnet.Chunk.{
  read-end, taken, dropped, read-chunk, offered-taken_dropped, asked-taken_dropped, taken-dropped,
  length-taken, dropped-IsLine,
}
use s3ftpgateway.Telnet.Total.{Returns, read-Returns}
use s3ftpgateway.Telnet.Wire.{Item, encode, data_of, offered, asked, IsLine, behind, read-encode}
use s3ftpgateway.Telnet.{TelnetConn, ReadResult, read}
use s3ftpgateway.Scanner.Rounds.{
  IsIdle, cut_line-append, cut_line-prefix, cut_line-newline, cut_line-data_of, Room, grow-Room,
  scan_loop-read, scan_loop-cut, Ended, scan_loop-nil,
}

-- The call gave this token, and left this connection.
abbrev pub Token : Bytes → TelnetConn → Scanned → Type 0
Token text left none = ⊥
Token text left (some (none, sc, c)) = ⊥
Token text left (some (some t, sc, c)) = (t ≡ text) × IsIdle sc × (c ≡ left)

-- The rest of a line fits into the buffer.
cut-Token :
    (f : ℕ) (is : List Item) (tail : Bytes) (sc sc1 : Scanner) (c : TelnetConn)
    → Room sc sc1
    → IsLine is
    → cut_line sc.pending ≡ none
    → sc.ended ≡ false
    → length (data_of is) < sc1.size - held_to sc1
    → c.input ≡ encode is ++ b'\n' ∷ tail
    → Token (drop_cr (sc.pending ++ data_of is)) (behind is tail c) (scan_loop (suc (suc f)) sc c)
cut-Token f is tail sc sc1 c grown line no_line going fits e =
    let bytes : Bytes = data_of is ++ b'\n' ∷ [] in
    let r : ReadResult = record { count = length (data_of is) + 1; bytes = bytes; error = none } in
    let c1 : TelnetConn = behind is tail c in
    let n : length bytes ≡ length (data_of is) + 1 = length-append (data_of is) (b'\n' ∷ []) in
    let held : (filled r sc1).pending ≡ (sc.pending ++ data_of is) ++ b'\n' ∷ [] =
      ap (λ p. p ++ take (length (data_of is) + 1) bytes) grown.same
      ∙ ap (λ k. sc.pending ++ take k bytes) (sym n)
      ∙ ap (λ b. sc.pending ++ b) (take-length bytes)
      ∙ sym (append_assoc sc.pending (data_of is) (b'\n' ∷ [])) in
    let cut : cut_line (filled r sc1).pending ≡ some (sc.pending ++ data_of is, []) =
      ap cut_line held
      ∙ cut_line-newline (sc.pending ++ data_of is) []
          (cut_line-append sc.pending (data_of is) no_line (cut_line-data_of is line)) in
    let reads : read (sc1.size - held_to sc1) c ≡ some (r, c1) =
      read-encode is (sc1.size - held_to sc1) tail c line fits e in
    let runs : scan_loop (suc (suc f)) sc c
        ≡ some (some (drop_cr (sc.pending ++ data_of is)), advanced [] (filled r sc1), c1) =
      scan_loop-read (suc f) sc c sc1 r c1 no_line going grown.makes reads
      ∙ scan_loop-cut f (filled r sc1) c1 (sc.pending ++ data_of is) [] cut in
    subst (Token (drop_cr (sc.pending ++ data_of is)) (behind is tail c)) (sym runs) (
      refl,
      record {
        empty = refl;
        reading = refl;
        sound = record {
          fits = omega (arith, grown.room, n, length-filled r sc1 (omega (arith, n)));
        };
      },
      refl,
    )

-- The scanner and the connection behind a read that fills the buffer.
record Filled (is : List Item) (tail : Bytes) (sc : Scanner) (c : TelnetConn) (is' : List Item)
    (sc' : Scanner) (c' : TelnetConn) : Type 0 where
  runs : (f : ℕ) → scan_loop (suc f) sc c ≡ scan_loop f sc' c'
  line : IsLine is'
  no_line : cut_line sc'.pending ≡ none
  going : sc'.ended ≡ false
  fits : held_to sc' ≤ sc'.size
  text : sc'.pending ++ data_of is' ≡ sc.pending ++ data_of is
  input : c'.input ≡ encode is' ++ b'\n' ∷ tail
  shorter : length c'.input < length c.input
  left : behind is' tail c' ≡ behind is tail c

behind-taken_dropped :
    (n : ℕ) (is : List Item) (mid tail : Bytes) (c : TelnetConn)
    → behind (dropped n is) tail (behind (taken n is) mid c) ≡ behind is tail c
behind-taken_dropped n is mid tail c = cc (
  append_assoc c.willopt (offered (taken n is)) (offered (dropped n is)),
  offered-taken_dropped n is,
  append_assoc c.doopt (asked (taken n is)) (asked (dropped n is)),
  asked-taken_dropped n is,
)

fill-Filled :
    (is : List Item) (tail : Bytes) (sc sc1 : Scanner) (c : TelnetConn)
    → Room sc sc1
    → IsLine is
    → cut_line sc.pending ≡ none
    → sc.ended ≡ false
    → sc1.size - held_to sc1 ≤ length (data_of is)
    → c.input ≡ encode is ++ b'\n' ∷ tail
    → (is' : List Item) × (sc' : Scanner) × (c' : TelnetConn) × Filled is tail sc c is' sc' c'
fill-Filled is tail sc sc1 c grown line no_line going full e =
    let room : ℕ = sc1.size - held_to sc1 in
    let bytes : Bytes = data_of (taken room is) in
    let is' : List Item = dropped room is in
    let r : ReadResult = record { count = length bytes; bytes = bytes; error = none } in
    let c1 : TelnetConn = behind (taken room is) (encode is' ++ b'\n' ∷ tail) c in
    let n : length bytes ≡ room = length-taken room is full in
    let reads : read room c ≡ some (r, c1) = read-chunk is room (b'\n' ∷ tail) c line full e in
    let returns : Returns room (length c.input) (some (r, c1)) =
      subst (Returns room (length c.input)) reads (read-Returns room c) in
    let held : (filled r sc1).pending ≡ sc.pending ++ bytes =
      ap (λ p. p ++ take (length bytes) bytes) grown.same
      ∙ ap (λ b. sc.pending ++ b) (take-length bytes) in
    let line' : IsLine is' = dropped-IsLine room is line in
    let text : (filled r sc1).pending ++ data_of is' ≡ sc.pending ++ data_of is =
      ap (λ p. p ++ data_of is') held
      ∙ append_assoc sc.pending bytes (data_of is')
      ∙ ap (λ b. sc.pending ++ b) (taken-dropped room is) in
    (
      is',
      filled r sc1,
      c1,
      record {
        runs = λ f. scan_loop-read f sc c sc1 r c1 no_line going grown.makes reads;
        line = line';
        no_line =
            ap cut_line held
            ∙ cut_line-append sc.pending bytes no_line (
                cut_line-prefix bytes (data_of is')
                  (ap cut_line (taken-dropped room is) ∙ cut_line-data_of is line));
        going = refl;
        fits = omega (arith, grown.room, n, length-filled r sc1 (omega arith));
        text = text;
        input = refl;
        left = behind-taken_dropped room is (encode is' ++ b'\n' ∷ tail) tail c;
        shorter = omega (arith, n, grown.room, returns.2);
      },
    )

scan_loop-Token :
    (f : ℕ) (is : List Item) (tail : Bytes) (sc : Scanner) (c : TelnetConn)
    → IsLine is
    → cut_line sc.pending ≡ none
    → sc.ended ≡ false
    → held_to sc ≤ sc.size
    → length sc.pending + length (data_of is) < 65536
    → c.input ≡ encode is ++ b'\n' ∷ tail
    → length c.input < f
    → Token (drop_cr (sc.pending ++ data_of is)) (behind is tail c) (scan_loop (suc f) sc c)
scan_loop-Token zero is tail sc c line no_line going fits short e lt = elim lt [ ]
scan_loop-Token (suc f) is tail sc c line no_line going fits short e lt =
    let (sc1, grown) = grow-Room sc fits (omega arith) in
    elim (Bool-cases (leb (sc1.size - held_to sc1) (length (data_of is)))) [
      | inr more ↦ cut-Token f is tail sc sc1 c grown line no_line going (ground arith) e
      | inl full ↦
          let (is', sc', c', h) =
            fill-Filled is tail sc sc1 c grown line no_line going (ground arith) e in
          let rest : Token (drop_cr (sc'.pending ++ data_of is')) (behind is' tail c')
              (scan_loop (suc f) sc' c') =
            scan_loop-Token f is' tail sc' c' h.line h.no_line h.going h.fits
              (omega (
                arith,
                ap (length {A = ℕ}) h.text,
                length-append sc.pending (data_of is),
                length-append sc'.pending (data_of is'),
              ))
              h.input (omega (arith, h.shorter)) in
          subst (λ p. Token (drop_cr p) (behind is tail c) (scan_loop (suc (suc f)) sc c)) h.text
            (subst
              (λ k. Token (drop_cr (sc'.pending ++ data_of is')) k (scan_loop (suc (suc f)) sc c))
              h.left
              (subst (Token (drop_cr (sc'.pending ++ data_of is')) (behind is' tail c'))
                (sym (h.runs (suc f))) rest))
    ]

-- A line of fewer than 65536 data bytes is one token, without its CR, in however many reads it
-- comes, and what follows stays on the input.
pub scan-Token :
    (is : List Item) (tail : Bytes) (sc : Scanner) (c : TelnetConn)
    → IsIdle sc
    → IsLine is
    → length (data_of is) < 65536
    → c.input ≡ encode is ++ b'\n' ∷ tail
    → Token (drop_cr (data_of is)) (behind is tail c) (scan sc c)
unfolding scan
scan-Token is tail sc c idle line short e =
    subst (λ p. Token (drop_cr (p ++ data_of is)) (behind is tail c) (scan sc c)) idle.empty
      (scan_loop-Token (suc (length c.input)) is tail sc c line (ap cut_line idle.empty)
        idle.reading idle.sound.fits (omega (arith, ap (length {A = ℕ}) idle.empty)) e
        (omega arith))

-- At the end of the input there is no token.
pub scan-Ended :
    (sc : Scanner) (c : TelnetConn)
    → IsIdle sc
    → c.input ≡ []
    → Ended (record c { input = [] }) (scan sc c)
unfolding scan
scan-Ended sc c idle e =
    let (sc1, grown) =
      grow-Room sc idle.sound.fits (omega (arith, ap (length {A = ℕ}) idle.empty)) in
    let (x, reads) = read-end (sc1.size - held_to sc1) c (omega (arith, grown.room)) e in
    let r : ReadResult = record { count = 0; bytes = []; error = some x } in
    let held : (filled r sc1).pending ≡ [] = append-nil sc1.pending ∙ grown.same ∙ idle.empty in
    subst (Ended (record c { input = [] }))
      (sym (
        scan_loop-read (suc (length c.input)) sc c sc1 r (record c { input = [] })
          (ap cut_line idle.empty) idle.reading grown.makes reads))
      (scan_loop-nil (length c.input) (filled r sc1) (record c { input = [] }) held refl)

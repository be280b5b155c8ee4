-- ===== src/Scanner/Rounds.antt =====
-- `bufio.Scanner.Scan` over the telnet layer: rounds that read and rounds that cut a line off.
use s3ftpgateway.Base.{
  ℕ, suc, ◌-◌, ◌≤◌, ◌<◌, ◌≡◌, ◌≢◌, refl, subst, true, false, Option-cases, none, some, inl, inr,
  List, [], ◌∷◌, ◌++◌, length, Bytes, arith,
}
use s3ftpgateway.Scanner.Fuel.{grow-Grows, Grows, IsScanner}
use s3ftpgateway.Scanner.{
  Scanner, cut_line, scan_lines, drop_cr, shift, grow, held_to, filled, advanced, Scanned,
  scan_loop, read_more,
}
use s3ftpgateway.Telnet.Wire.{
  Item, byte, will, wont, do_option, dont, other, subnegotiation, data_of, IsLine,
}
use s3ftpgateway.Telnet.{TelnetConn, ReadResult, read}

pub drop_cr-append : (xs : Bytes) → drop_cr (xs ++ b'\r' ∷ []) ≡ xs
unfolding drop_cr
drop_cr-append [] = refl
drop_cr-append (x ∷ []) = ground arith
drop_cr-append (x ∷ y ∷ xs) = ground (arith, drop_cr-append (y ∷ xs))

-- Nothing is held, and the connection has not ended.
pub record IsIdle (sc : Scanner) : Type 0 where
  pub empty : sc.pending ≡ []
  pub reading : sc.ended ≡ false
  pub sound : IsScanner sc

pub cut_line-append :
    (xs ys : Bytes) → cut_line xs ≡ none → cut_line ys ≡ none → cut_line (xs ++ ys) ≡ none
unfolding cut_line
cut_line-append [] ys h k = k
cut_line-append (x ∷ xs) ys h k = ground (arith, cut_line-append xs ys)

pub cut_line-prefix : (xs ys : Bytes) → cut_line (xs ++ ys) ≡ none → cut_line xs ≡ none
unfolding cut_line
cut_line-prefix [] ys h = refl
cut_line-prefix (x ∷ xs) ys h = ground (arith, cut_line-prefix xs ys)

pub cut_line-newline :
    (xs rest : Bytes) → cut_line xs ≡ none → cut_line (xs ++ b'\n' ∷ rest) ≡ some (xs, rest)
unfolding cut_line
cut_line-newline [] rest h = refl
cut_line-newline (x ∷ xs) rest h = ground (arith, cut_line-newline xs rest)

pub cut_line-data_of : (is : List Item) → IsLine is → cut_line (data_of is) ≡ none
unfolding cut_line
cut_line-data_of [] h = refl
cut_line-data_of (byte b ∷ is) h = ground (arith, cut_line-data_of is)
cut_line-data_of (will x ∷ is) h = cut_line-data_of is h.1
cut_line-data_of (wont x ∷ is) h = cut_line-data_of is h.1
cut_line-data_of (do_option x ∷ is) h = cut_line-data_of is h.1
cut_line-data_of (dont x ∷ is) h = cut_line-data_of is h.1
cut_line-data_of (other x ∷ is) h = cut_line-data_of is h.1
cut_line-data_of (subnegotiation x y ∷ is) h = cut_line-data_of is h.1

-- A scanner whose line is not too long makes room.
pub record Room (sc sc' : Scanner) : Type 0 where
  pub makes : grow (shift sc) ≡ some sc'
  pub room : held_to sc' < sc'.size
  pub same : sc'.pending ≡ sc.pending
  pub goes_on : sc'.ended ≡ sc.ended

grow-ne-none :
    (sc : Scanner) → held_to sc ≤ sc.size → length sc.pending < 65536 → grow (shift sc) ≢ none
unfolding grow shift
grow-ne-none sc h lt = ground arith

pub grow-Room :
    (sc : Scanner)
    → held_to sc ≤ sc.size
    → length sc.pending < 65536
    → (sc' : Scanner) × Room sc sc'
grow-Room sc h lt = elim (Option-cases (grow (shift sc))) [
  | inl e ↦ absurd (grow-ne-none sc h lt e)
  | inr (sc', e) ↦
      let g : Grows sc (some sc') = subst (Grows sc) e (grow-Grows sc h) in
      (sc', record { makes = e; room = g.0; same = g.1; goes_on = g.2 })
]

module _ (f : ℕ) (sc : Scanner) (c : TelnetConn) where
  -- A round that reads.
  pub scan_loop-read :
      (sc1 : Scanner) (r : ReadResult) (c1 : TelnetConn)
      → cut_line sc.pending ≡ none
      → sc.ended ≡ false
      → grow (shift sc) ≡ some sc1
      → read (sc1.size - held_to sc1) c ≡ some (r, c1)
      → scan_loop (suc f) sc c ≡ scan_loop f (filled r sc1) c1
  unfolding scan_loop scan_lines read_more
  scan_loop-read sc1 r c1 no_line going grows reads = ground (arith, no_line, going, grows, reads)

  -- A round that cuts a line off.
  pub scan_loop-cut :
      (pre post : Bytes)
      → cut_line sc.pending ≡ some (pre, post)
      → scan_loop (suc f) sc c ≡ some (some (drop_cr pre), advanced post sc, c)
  unfolding scan_loop scan_lines
  scan_loop-cut pre post e = ground arith

-- The call gave no token, and left this connection.
abbrev pub Ended : TelnetConn → Scanned → Type 0
Ended left none = ⊥
Ended left (some (none, sc, c)) = c ≡ left
Ended left (some (some t, sc, c)) = ⊥

-- A round with nothing held behind an error.
pub scan_loop-nil :
    (f : ℕ) (sc : Scanner) (c : TelnetConn)
    → sc.pending ≡ []
    → sc.ended ≡ true
    → Ended c (scan_loop (suc f) sc c)
unfolding scan_loop scan_lines cut_line
scan_loop-nil f sc c e ended = ground arith

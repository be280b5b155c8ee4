-- ===== src/Scanner/Fuel.antt =====
-- The loop of `bufio.Scanner.Scan` over the telnet layer: its fuel and its buffer.
use s3ftpgateway.Base.{
  ℕ, zero, suc, ◌+◌, ◌-◌, ◌≤◌, ◌<◌, ◌≡◌, refl, subst, Bool, true, false, Bool-cases, Option, none,
  some, inl, inr, [], ◌∷◌, if◌then◌else◌, length, take, length-append, length-take, Bytes, arith,
}
use s3ftpgateway.Scanner.{
  Scanner, cut_line, scan_lines, shift, grow, held_to, filled, advanced, Scanned, scan_loop, scan,
  read_more,
}
use s3ftpgateway.Telnet.{TelnetConn, ReadResult, Reading, read}
use s3ftpgateway.Telnet.Total.{Returns, read-Returns}

-- What is held lies in the buffer.
pub record IsScanner (sc : Scanner) : Type 0 where
  pub fits : held_to sc ≤ sc.size

-- The call of `Scan` returned; a token uses up one byte at least of `total` bytes.
abbrev pub Scans : ℕ → Scanned → Type 0
Scans total none = ⊥
Scans total (some (none, sc, c)) = IsScanner sc
Scans total (some (some token, sc, c)) = IsScanner sc × (length sc.pending + length c.input < total)

abbrev Cuts : Bytes → Option (Bytes × Bytes) → Type 0
Cuts bs none = Unit
Cuts bs (some (pre, post)) = length post < length bs

cut_line-Cuts : (bs : Bytes) → Cuts bs (cut_line bs)
unfolding cut_line
cut_line-Cuts [] = tt
cut_line-Cuts (b ∷ bs) = ground (arith, cut_line-Cuts bs)

scan_lines-Cuts : (bs : Bytes) (at_eof : Bool) → Cuts bs (scan_lines bs at_eof)
unfolding scan_lines
scan_lines-Cuts [] at_eof = ground (arith, cut_line-Cuts [])
scan_lines-Cuts (b ∷ bs) at_eof = ground (arith, cut_line-Cuts (b ∷ bs))

-- Room for a read is made.
abbrev pub Grows : Scanner → Option Scanner → Type 0
Grows sc none = Unit
Grows sc (some sc') = (held_to sc' < sc'.size) × (sc'.pending ≡ sc.pending) × (sc'.ended ≡ sc.ended)

pub grow-Grows : (sc : Scanner) → held_to sc ≤ sc.size → Grows sc (grow (shift sc))
unfolding grow shift
grow-Grows sc h = ground arith

abbrev rounds : Bool → Bytes → ℕ
rounds true bs = 0
rounds false bs = suc (length bs)

-- The rest of the loop, with fewer than `left` rounds to go.
abbrev Continues : ℕ → ℕ → (Scanner → TelnetConn → Scanned) → Type 0
Continues total left next =
    (sc : Scanner) (c : TelnetConn)
    → IsScanner sc
    → rounds sc.ended c.input < left
    → length sc.pending + length c.input ≤ total
    → Scans total (next sc c)

pub length-filled :
    (r : ReadResult) (sc : Scanner)
    → r.count ≤ length r.bytes
    → length (filled r sc).pending ≡ length sc.pending + r.count
length-filled r sc le =
    omega (arith, length-append sc.pending (take r.count r.bytes), length-take r.count r.bytes le)

shift_fits : (sc : Scanner) → held_to sc ≤ sc.size → held_to (shift sc) ≤ (shift sc).size
unfolding shift
shift_fits sc h = ground arith

module _ (next : Scanner → TelnetConn → Scanned) where
  next-Scans :
      (total room : ℕ) (sc : Scanner) (c : TelnetConn) (reading : Reading)
      → Continues total (suc (length c.input)) next
      → held_to sc + room ≤ sc.size
      → 0 < room
      → length sc.pending + length c.input ≤ total
      → Returns room (length c.input) reading
      → Scans total (elim reading [ none ↦ none | some (r, c') ↦ next (filled r sc) c' ])
  next-Scans total room sc c none continues fits pos le returns = returns
  next-Scans total room sc c (some (r, c')) continues fits pos le returns =
      continues (filled r sc) c' (record { fits = omega (arith, length-filled r sc returns.0) })
        (ground arith) (omega (arith, length-filled r sc returns.0))

  read_more-Scans :
      (total : ℕ) (sc : Scanner) (c : TelnetConn)
      → Continues total (suc (length c.input)) next
      → IsScanner sc
      → length sc.pending + length c.input ≤ total
      → Scans total (read_more next sc c)
  unfolding read_more
  read_more-Scans total sc c continues h le = grown (grow (shift sc)) refl
    where
      grown :
          (o : Option Scanner)
          → grow (shift sc) ≡ o
          → Scans total (elim o [
            | none ↦ some (none, record (shift sc) { ended = true }, c)
            | some sc' ↦ elim (read (sc'.size - held_to sc') c) [
              | none ↦ none
              | some (r, c') ↦ next (filled r sc') c'
            ]
          ])
      grown none e = record { fits = shift_fits sc h.fits }
      grown (some sc') e =
          let g : Grows sc (some sc') = subst (Grows sc) e (grow-Grows sc h.fits) in
          next-Scans total (sc'.size - held_to sc') sc' c (read (sc'.size - held_to sc') c)
            continues (omega arith) (omega arith) (ground (arith, g.1))
            (read-Returns (sc'.size - held_to sc') c)

  cut-Scans :
      (total : ℕ) (sc : Scanner) (c : TelnetConn) (cut : Option (Bytes × Bytes))
      → Cuts sc.pending cut
      → (sc.ended ≡ false → Continues total (suc (length c.input)) next)
      → IsScanner sc
      → length sc.pending + length c.input ≤ total
      → Scans total (elim cut [
        | some (token, rest) ↦ some (some token, advanced rest sc, c)
        | none ↦
            if sc.ended
            then some (none, record sc { start = 0; pending = [] }, c)
            else read_more next sc c
      ])
  cut-Scans total sc c (some (token, rest)) cuts continues h le =
      (record { fits = omega arith }, omega arith)
  cut-Scans total sc c none cuts continues h le = elim (Bool-cases sc.ended) [
    | inl b ↦ rw b (record { fits = omega arith })
    | inr b ↦ simp b (read_more-Scans total sc c (continues b) h le)
  ]

scan_loop-Scans :
    (total f : ℕ) (sc : Scanner) (c : TelnetConn)
    → IsScanner sc
    → rounds sc.ended c.input < f
    → length sc.pending + length c.input ≤ total
    → Scans total (scan_loop f sc c)
unfolding scan_loop
scan_loop-Scans total zero sc c h lt le = elim lt [ ]
scan_loop-Scans total (suc f) sc c h lt le =
    cut-Scans (scan_loop f) total sc c (scan_lines sc.pending sc.ended)
      (scan_lines-Cuts sc.pending sc.ended)
      (λ b sc' c' h' lt' le'.
        scan_loop-Scans total f sc' c' h'
          (let lt'' : suc (length c.input) < suc f = rw b at lt in omega arith) le')
      h le

rounds-le : (b : Bool) (bs : Bytes) → rounds b bs ≤ suc (length bs)
rounds-le true bs = omega arith
rounds-le false bs = omega arith

-- A call of Scan returns, whatever the client sends, and a token uses up one byte at least.
pub scan-Scans :
    (sc : Scanner) (c : TelnetConn)
    → IsScanner sc
    → Scans (length sc.pending + length c.input) (scan sc c)
unfolding scan
scan-Scans sc c h =
    scan_loop-Scans (length sc.pending + length c.input) (suc (suc (length c.input))) sc c h
      (omega (arith, rounds-le sc.ended c.input)) (omega arith)

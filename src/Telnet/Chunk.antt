-- ===== src/Telnet/Chunk.antt =====
-- `Read` of ftp/telnet.go into a buffer that a line does not fit into.
use s3ftpgateway.Base.{
  some, Bytes, ℕ, zero, suc, ◌≤◌, ◌<◌, ◌≡◌, refl, ap, sym, subst, ◌∙◌, List, [], ◌∷◌, ◌++◌, length,
  append-nil, append_assoc, length-append, arith,
}
use s3ftpgateway.Telnet.Wire.{
  Item, byte, will, wont, do_option, dont, other, subnegotiation, encode_item, encode, data_of,
  offered, asked, IsLine, behind, with_input, read_loop-item, read_loop-byte, length-encode_item,
}
use s3ftpgateway.Telnet.{IoError, TelnetConn, Reading, read_loop, read, returned}

-- The items up to the `n`th data byte, and the rest.
abbrev pub taken : ℕ → List Item → List Item
taken zero is = []
taken (suc n) [] = []
taken (suc n) (byte b ∷ is) = byte b ∷ taken n is
taken (suc n) (i ∷ is) = i ∷ taken (suc n) is

abbrev pub dropped : ℕ → List Item → List Item
dropped zero is = is
dropped (suc n) [] = []
dropped (suc n) (byte b ∷ is) = dropped n is
dropped (suc n) (i ∷ is) = dropped (suc n) is

abbrev chunk : ℕ → List Item → Bytes → Bytes → TelnetConn → Reading
chunk n is got tail c =
    returned (got ++ data_of (taken n is)) (behind (taken n is) (encode (dropped n is) ++ tail) c)

-- An item in front that carries no data.
command-chunk :
    (i : Item) (n : ℕ) (is : List Item) (got tail : Bytes) (c : TelnetConn)
    → data_of (i ∷ []) ≡ []
    → chunk (suc n) is got tail (behind (i ∷ []) (encode is ++ tail) c)
      ≡ chunk (suc n) (i ∷ is) got tail c
command-chunk (byte b) n is got tail c e = absurd (ground arith)
command-chunk (will opt) n is got tail c e = simp (append_assoc, append-nil)
command-chunk (do_option opt) n is got tail c e = simp (append_assoc, append-nil)
command-chunk _ n is got tail c e = simp append-nil

read_loop-chunk :
    (is : List Item) (f room : ℕ) (got tail : Bytes) (c : TelnetConn)
    → IsLine is
    → length (encode is) < f
    → room ≤ length (data_of is)
    → read_loop f room got (with_input (encode is ++ tail) c) ≡ chunk room is got tail c
read_loop-chunk is zero room got tail c h lf lr = elim lf [ ]
read_loop-chunk is (suc f) zero got tail c h lf lr = unfold read_loop in simp append-nil
read_loop-chunk [] (suc f) (suc room) got tail c h lf lr = elim lr [ ]
read_loop-chunk (byte b ∷ is) (suc f) (suc room) got tail c h lf lr = rw append_assoc (
    read_loop-byte f room b got (encode is ++ tail) c h.0
    ∙ read_loop-chunk is f room (got ++ b ∷ []) tail c h.1
        (omega
          (arith, length-append (encode_item (byte b)) (encode is), length-encode_item (byte b)))
        (omega arith)
    ∙ simp append_assoc)
read_loop-chunk (i ∷ is) (suc f) (suc room) got tail c h lf lr = rw append_assoc (
    read_loop-item f room got (encode is ++ tail) i c h.0 refl
    ∙ read_loop-chunk is f (suc room) got tail (behind (i ∷ []) (encode is ++ tail) c) h.1
        (omega (arith, length-append (encode_item i) (encode is), length-encode_item i)) lr
    ∙ command-chunk i room is got tail c refl)

-- Into a buffer that the data of a line fills, Read takes as much data as there is room for.
pub read-chunk :
    (is : List Item) (size : ℕ) (tail : Bytes) (c : TelnetConn)
    → IsLine is
    → size ≤ length (data_of is)
    → c.input ≡ encode is ++ tail
    → read size c ≡ chunk size is [] tail c
unfolding read
read-chunk is size tail c h lr e =
    let whole : Bytes = encode is ++ tail in
    subst (λ bs. read_loop (suc (length bs)) size [] (with_input bs c) ≡ chunk size is [] tail c)
      (sym e)
      (read_loop-chunk is (suc (length whole)) size [] tail c h
        (omega (arith, length-append (encode is) tail)) lr)

pub taken-dropped :
    (n : ℕ) (is : List Item) → data_of (taken n is) ++ data_of (dropped n is) ≡ data_of is
taken-dropped zero is = refl
taken-dropped (suc n) [] = refl
taken-dropped (suc n) (byte b ∷ is) = ap (◌∷◌ b) (taken-dropped n is)
taken-dropped (suc n) (will x ∷ is) = taken-dropped (suc n) is
taken-dropped (suc n) (wont x ∷ is) = taken-dropped (suc n) is
taken-dropped (suc n) (do_option x ∷ is) = taken-dropped (suc n) is
taken-dropped (suc n) (dont x ∷ is) = taken-dropped (suc n) is
taken-dropped (suc n) (other x ∷ is) = taken-dropped (suc n) is
taken-dropped (suc n) (subnegotiation x y ∷ is) = taken-dropped (suc n) is

pub offered-taken_dropped :
    (n : ℕ) (is : List Item) → offered (taken n is) ++ offered (dropped n is) ≡ offered is
offered-taken_dropped zero is = refl
offered-taken_dropped (suc n) [] = refl
offered-taken_dropped (suc n) (byte b ∷ is) = offered-taken_dropped n is
offered-taken_dropped (suc n) (will x ∷ is) = ap (◌∷◌ x) (offered-taken_dropped (suc n) is)
offered-taken_dropped (suc n) (wont x ∷ is) = offered-taken_dropped (suc n) is
offered-taken_dropped (suc n) (do_option x ∷ is) = offered-taken_dropped (suc n) is
offered-taken_dropped (suc n) (dont x ∷ is) = offered-taken_dropped (suc n) is
offered-taken_dropped (suc n) (other x ∷ is) = offered-taken_dropped (suc n) is
offered-taken_dropped (suc n) (subnegotiation x y ∷ is) = offered-taken_dropped (suc n) is

pub asked-taken_dropped :
    (n : ℕ) (is : List Item) → asked (taken n is) ++ asked (dropped n is) ≡ asked is
asked-taken_dropped zero is = refl
asked-taken_dropped (suc n) [] = refl
asked-taken_dropped (suc n) (byte b ∷ is) = asked-taken_dropped n is
asked-taken_dropped (suc n) (will x ∷ is) = asked-taken_dropped (suc n) is
asked-taken_dropped (suc n) (wont x ∷ is) = asked-taken_dropped (suc n) is
asked-taken_dropped (suc n) (do_option x ∷ is) = ap (◌∷◌ x) (asked-taken_dropped (suc n) is)
asked-taken_dropped (suc n) (dont x ∷ is) = asked-taken_dropped (suc n) is
asked-taken_dropped (suc n) (other x ∷ is) = asked-taken_dropped (suc n) is
asked-taken_dropped (suc n) (subnegotiation x y ∷ is) = asked-taken_dropped (suc n) is

pub length-taken :
    (n : ℕ) (is : List Item) → n ≤ length (data_of is) → length (data_of (taken n is)) ≡ n
length-taken zero is h = refl
length-taken (suc n) [] h = elim h [ ]
length-taken (suc n) (byte b ∷ is) h = ap suc (length-taken n is (omega arith))
length-taken (suc n) (will x ∷ is) h = length-taken (suc n) is h
length-taken (suc n) (wont x ∷ is) h = length-taken (suc n) is h
length-taken (suc n) (do_option x ∷ is) h = length-taken (suc n) is h
length-taken (suc n) (dont x ∷ is) h = length-taken (suc n) is h
length-taken (suc n) (other x ∷ is) h = length-taken (suc n) is h
length-taken (suc n) (subnegotiation x y ∷ is) h = length-taken (suc n) is h

pub dropped-IsLine : (n : ℕ) (is : List Item) → IsLine is → IsLine (dropped n is)
dropped-IsLine zero is h = h
dropped-IsLine (suc n) [] h = tt
dropped-IsLine (suc n) (byte b ∷ is) h = dropped-IsLine n is h.1
dropped-IsLine (suc n) (will x ∷ is) h = dropped-IsLine (suc n) is h.1
dropped-IsLine (suc n) (wont x ∷ is) h = dropped-IsLine (suc n) is h.1
dropped-IsLine (suc n) (do_option x ∷ is) h = dropped-IsLine (suc n) is h.1
dropped-IsLine (suc n) (dont x ∷ is) h = dropped-IsLine (suc n) is h.1
dropped-IsLine (suc n) (other x ∷ is) h = dropped-IsLine (suc n) is h.1
dropped-IsLine (suc n) (subnegotiation x y ∷ is) h = dropped-IsLine (suc n) is h.1

-- With no input left Read returns an error and no byte.
pub read-end :
    (size : ℕ) (c : TelnetConn)
    → 0 < size
    → c.input ≡ []
    → (e : IoError) × (read size c
        ≡ some (record { count = 0; bytes = []; error = some e }, record c { input = [] }))
unfolding read
read-end zero c pos e = absurd (omega arith)
read-end (suc size) c pos e = (c.end_of_input, unfold read_loop in ground arith)

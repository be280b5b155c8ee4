-- ===== src/Text.antt =====
-- The functions of Go's `strings` and `strconv` that the program uses, on ASCII text.
pub mod Decimal
pub mod Order
use s3ftpgateway.Base.{
  ℕ, zero, suc, ◌+◌, ◌-◌, ◌*◌, ◌/◌, ◌%◌, Bool, true, false, ◌&&◌, ◌||◌, Option, none, some, List,
  [], ◌∷◌, ◌++◌, map, leb, ltb, ◌==◌, if◌then◌else◌, Bytes, beq,
}
use s3ftpgateway.Base.Int.{ℤ, pos, negsuc}

-- `strings.HasPrefix`
unfoldable pub has_prefix : Bytes → Bytes → Bool
has_prefix s [] = true
has_prefix [] (p ∷ ps) = false
has_prefix (b ∷ bs) (p ∷ ps) = b == p && has_prefix bs ps

-- `strings.TrimPrefix` for a prefix of one byte.
unfoldable pub trim_prefix : ℕ → Bytes → Bytes
trim_prefix p [] = []
trim_prefix p (b ∷ bs) = if b == p then bs else b ∷ bs

abbrev pub is_space : ℕ → Bool
is_space c = c == b' ' || leb b'\t' c && leb c b'\r'

unfoldable pub trim_left : Bytes → Bytes
trim_left [] = []
trim_left (b ∷ bs) = let rest = trim_left bs in if is_space b then rest else b ∷ bs

unfoldable pub trim_right : Bytes → Bytes
trim_right [] = []
trim_right (b ∷ bs) = elim (trim_right bs) [
  | [] ↦ if is_space b then [] else b ∷ []
  | c ∷ cs ↦ b ∷ c ∷ cs
]

-- `strings.TrimSpace`
unfoldable pub trim_space : Bytes → Bytes
unfolding trim_left trim_right
trim_space s = trim_right (trim_left s)

abbrev pub upper : ℕ → ℕ
upper c = if leb b'a' c && leb c b'z' then c - 32 else c

-- `strings.ToUpper`
unfoldable pub to_upper : Bytes → Bytes
to_upper = map upper

-- `strings.EqualFold`
abbrev pub equal_fold : Bytes → Bytes → Bool
equal_fold a b = beq (to_upper a) (to_upper b)

abbrev pub push_head : ℕ → List Bytes → List Bytes
push_head b [] = (b ∷ []) ∷ []
push_head b (w ∷ ws) = (b ∷ w) ∷ ws

-- `strings.Split` at one byte; there is always a first part.
unfoldable pub split : ℕ → Bytes → List Bytes
split sep [] = [] ∷ []
split sep (b ∷ bs) = let rest = split sep bs in if b == sep then [] ∷ rest else push_head b rest

-- The words between white space, the last one first and unfinished.
fields_from : Bytes → Bytes → List Bytes
fields_from [] [] = []
fields_from (c ∷ word) [] = (c ∷ word) ∷ []
fields_from word (b ∷ bs) =
    let stay = fields_from (word ++ b ∷ []) bs in
    let close = fields_from [] bs in
    if is_space b then (elim word [ [] ↦ close | c ∷ cs ↦ (c ∷ cs) ∷ close ]) else stay

-- `strings.Fields`
unfoldable pub fields : Bytes → List Bytes
unfolding fields_from
fields = fields_from []

-- `escapeQuote.Replace`: every quote twice.
unfoldable pub escape_quote : Bytes → Bytes
escape_quote [] = []
escape_quote (b ∷ bs) = let rest = escape_quote bs in if b == b'"' then b ∷ b ∷ rest else b ∷ rest

abbrev pub is_digit : ℕ → Bool
is_digit c = leb b'0' c && leb c b'9'

digits_value : ℕ → Bytes → Option ℕ
digits_value acc [] = some acc
digits_value acc (c ∷ cs) =
    let more = digits_value (acc * 10 + (c - b'0')) cs in if is_digit c then more else none

-- At least one digit.
digits_of : Bytes → Option ℕ
unfolding digits_value
digits_of [] = none
digits_of (c ∷ cs) = digits_value 0 (c ∷ cs)

abbrev pub int_max : ℕ
int_max = 9223372036854775807

abbrev negate : ℕ → ℤ
negate zero = pos 0
negate (suc n) = negsuc n

abbrev in_int : ℕ → (ℕ → ℤ) → Option ℕ → Option ℤ
in_int limit sign none = none
in_int limit sign (some n) = if leb n limit then some (sign n) else none

-- `strconv.Atoi`: an optional sign and decimal digits, in the range of a 64-bit `int`.
unfoldable pub atoi : Bytes → Option ℤ
unfolding digits_of
atoi [] = none
atoi (c ∷ cs) =
    if c == b'-'
    then in_int (int_max + 1) negate (digits_of cs)
    else if c == b'+'
    then in_int int_max pos (digits_of cs)
    else in_int int_max pos (digits_of (c ∷ cs))

decimal_from : ℕ → ℕ → Bytes → Bytes
decimal_from zero n acc = acc
decimal_from (suc f) n acc =
    let more = decimal_from f (n / 10) ((b'0' + n % 10) ∷ acc) in
    if ltb n 10 then (b'0' + n) ∷ acc else more

-- `%d` for a number that is not negative. A number has fewer digits than its successor counts.
unfoldable pub decimal : ℕ → Bytes
unfolding decimal_from
decimal n = decimal_from (suc n) n []

abbrev pub decimal_ℤ : ℤ → Bytes
decimal_ℤ (pos n) = decimal n
decimal_ℤ (negsuc n) = b'-' ∷ decimal (suc n)

-- `<` on strings.
unfoldable pub less : Bytes → Bytes → Bool
less [] [] = false
less [] (b ∷ bs) = true
less (a ∷ as') [] = false
less (a ∷ as') (b ∷ bs) = ltb a b || (a == b && less as' bs)

insert_sorted : Bytes → List Bytes → List Bytes
insert_sorted x [] = x ∷ []
insert_sorted x (y ∷ ys) = if less y x then y ∷ insert_sorted x ys else x ∷ y ∷ ys

-- `sort.Strings`
unfoldable pub sort_strings : List Bytes → List Bytes
unfolding insert_sorted
sort_strings [] = []
sort_strings (x ∷ xs) = insert_sorted x (sort_strings xs)

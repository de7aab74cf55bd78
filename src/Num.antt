-- ===== src/Num.antt =====
-- Go integers: a value of type `int` or `int64` is an integer, and a `time.Duration` is one that
-- counts nanoseconds. `negsuc n` is -(n + 1). Decimal text follows strconv.
use localfront.Base.{
  not, ℕ, zero, suc, ◌+◌, ◌-◌, ◌*◌, ◌/◌, ◌%◌, ◌^◌, Bool, true, false, ◌&&◌, [], ◌∷◌, Option, none,
  some, ltb, leb, ◌==◌, if◌then◌else◌,
}
use localfront.Text.{Bytes}

pub data ℤ : Type 0 where
  pos : ℕ → ℤ
  negsuc : ℕ → ℤ

abbrev pub eq_ℤ : ℤ → ℤ → Bool
eq_ℤ (pos a) (pos b) = a == b
eq_ℤ (negsuc a) (negsuc b) = a == b
eq_ℤ (pos _) (negsuc _) = false
eq_ℤ (negsuc _) (pos _) = false

abbrev pub le_ℤ : ℤ → ℤ → Bool
le_ℤ (pos a) (pos b) = leb a b
le_ℤ (negsuc a) (negsuc b) = leb b a
le_ℤ (pos _) (negsuc _) = false
le_ℤ (negsuc _) (pos _) = true

abbrev pub lt_ℤ : ℤ → ℤ → Bool
lt_ℤ (pos a) (pos b) = ltb a b
lt_ℤ (negsuc a) (negsuc b) = ltb b a
lt_ℤ (pos _) (negsuc _) = false
lt_ℤ (negsuc _) (pos _) = true

abbrev signed : ℕ → ℤ
signed m = if ltb m (2 ^ 63) then pos m else negsuc (2 ^ 64 - m - 1)

-- The int64 that a sum or a product of int64 values is: the value modulo 2^64.
unfoldable pub wrap_int64 : ℤ → ℤ
wrap_int64 (pos n) = signed (n % 2 ^ 64)
wrap_int64 (negsuc n) = signed (2 ^ 64 - 1 - n % 2 ^ 64)

-- The digits of `n` in front of `out`; a number has at most as many digits as its value plus one.
unfoldable pub digits_from : ℕ → ℕ → Bytes → Bytes
digits_from zero n out = out
digits_from (suc f) n out =
    let next = (b'0' + n % 10) ∷ out in
    let more = digits_from f (n / 10) next in if n / 10 == 0 then next else more

unfoldable pub format_ℕ : ℕ → Bytes
format_ℕ n = digits_from (suc n) n []

-- `strconv.Itoa` and `strconv.FormatInt(n, 10)`
unfoldable pub format_int : ℤ → Bytes
format_int (pos n) = format_ℕ n
format_int (negsuc n) = b'-' ∷ format_ℕ (suc n)

abbrev pub is_digit : ℕ → Bool
is_digit c = leb b'0' c && leb c b'9'

unfoldable pub parse_digits : Bytes → ℕ → Option ℕ
parse_digits [] n = some n
parse_digits (c ∷ s) n =
    let rest = parse_digits s (n * 10 + (c - b'0')) in if is_digit c then rest else none

abbrev within : Bool → ℤ → Option ℤ
within ok n = if ok then some n else none

abbrev positive : Option ℕ → Option ℤ
positive none = none
positive (some n) = within (ltb n (2 ^ 63)) (pos n)

abbrev negative : Option ℕ → Option ℤ
negative none = none
negative (some zero) = some (pos 0)
negative (some (suc n)) = within (ltb n (2 ^ 63)) (negsuc n)

unfoldable pub parse_ℕ : Bytes → Option ℕ
parse_ℕ [] = none
parse_ℕ (c ∷ s) = parse_digits (c ∷ s) 0

-- `strconv.ParseInt(s, 10, 64)` and `strconv.Atoi` on a 64-bit machine: `none` is an error.
unfoldable pub parse_int : Bytes → Option ℤ
parse_int [] = none
parse_int (c ∷ s) =
    if c == b'-'
    then negative (parse_ℕ s)
    else if c == b'+'
    then positive (parse_ℕ s)
    else positive (parse_ℕ (c ∷ s))

-- The scan of `strconv.ParseUint(s, 10, 64)`: it stops at the first digit that leaves the range.
unfoldable pub scan_digits : Bytes → ℕ → Option ℕ
scan_digits [] n = some n
scan_digits (c ∷ s) n =
    let grown = n * 10 + (c - b'0') in
    let rest = scan_digits s grown in
    if not (is_digit c) then none else if leb (2 ^ 64) grown then some (2 ^ 64 - 1) else rest

unfoldable pub scan_ℕ : Bytes → Option ℕ
scan_ℕ [] = none
scan_ℕ (c ∷ s) = scan_digits (c ∷ s) 0

abbrev clamped : Bool → Option ℕ → ℤ
clamped negated none = pos 0
clamped true (some zero) = pos 0
clamped true (some (suc n)) = if ltb n (2 ^ 63) then negsuc n else negsuc (2 ^ 63 - 1)
clamped false (some n) = if ltb n (2 ^ 63) then pos n else pos (2 ^ 63 - 1)

-- The number that `strconv.Atoi` gives whether there is an error or not: the nearest `int` for one
-- out of range, 0 for what is no number.
unfoldable pub atoi_value : Bytes → ℤ
atoi_value [] = pos 0
atoi_value (c ∷ s) =
    if c == b'-'
    then clamped true (scan_ℕ s)
    else if c == b'+'
    then clamped false (scan_ℕ s)
    else clamped false (scan_ℕ (c ∷ s))

-- Named on the `unfolding` line of a test, it opens the functions above.
unfoldable pub num_ops : Unit {0}
unfolding digits_from format_ℕ format_int parse_digits parse_ℕ parse_int scan_digits scan_ℕ
    atoi_value wrap_int64
num_ops = tt

-- ===== src/AccessLog/Encode.antt =====
-- `encodeField` and `fieldOrDash` of internal/accesslog/accesslog.go, and a decoder for them.
use localfront.Base.{
  ℕ, zero, suc, ◌+◌, ◌-◌, ◌*◌, ◌/◌, ◌%◌, ◌<◌, ◌≡◌, refl, sym, ap, ◌∙◌, inl, inr, false, [], ◌∷◌,
  ltb, ◌==◌, if◌then◌else◌, any, arith, Bool-cases, All,
}
use localfront.Text.{Bytes}
use localfront.Num.{ℤ, pos, negsuc, lt_ℤ, le_ℤ, digits_from, format_ℕ, format_int}
use localfront.AccessLog.{
  must_escape, hex_digit, escape_bytes, encode_field, field_or_dash, status_field, int_field,
}

-- What a reader of the log does with a column: `%` and two hexadecimal digits stand for a byte.
hex_value : ℕ → ℕ
hex_value d = if ltb d b'A' then d - b'0' else d - b'A' + 10

unfoldable pub decode_field : Bytes → Bytes
unfolding hex_value
decode_field [] = []
decode_field (c ∷ []) = c ∷ []
decode_field (c ∷ a ∷ []) = c ∷ a ∷ []
decode_field (c ∷ a ∷ b ∷ s) =
    let escaped = (hex_value a * 16 + hex_value b) ∷ decode_field s in
    let plain = c ∷ decode_field (a ∷ b ∷ s) in if c == b'%' then escaped else plain

decode_field-cons :
    (c : ℕ) (s : Bytes) → (c == b'%') ≡ false → decode_field (c ∷ s) ≡ c ∷ decode_field s
unfolding decode_field
decode_field-cons c [] h = refl
decode_field-cons c (a ∷ []) h = refl
decode_field-cons c (a ∷ b ∷ s) h = rw h

hex_value-hex_digit : (n : ℕ) → n < 16 → hex_value (hex_digit n) ≡ n
unfolding hex_value hex_digit
hex_value-hex_digit n h = ground arith

decode_field-escape :
    (c : ℕ) (s : Bytes)
    → c < 256
    → decode_field (b'%' ∷ hex_digit (c / 16) ∷ hex_digit (c % 16) ∷ s) ≡ c ∷ decode_field s
decode_field-escape c s h =
    unfold decode_field in
    rw (hex_value-hex_digit (c / 16) (omega arith), hex_value-hex_digit (c % 16) (omega arith))
      (ap (λ n. n ∷ decode_field s) (omega arith))

not_percent : (c : ℕ) → must_escape c ≡ false → (c == b'%') ≡ false
unfolding must_escape
not_percent c h = ground arith

decode_field-escape_bytes : (s : Bytes) → All (λ c. c < 256) s → decode_field (escape_bytes s) ≡ s
unfolding escape_bytes
decode_field-escape_bytes [] _ = unfold decode_field in refl
decode_field-escape_bytes (c ∷ s) (h, k) = elim (Bool-cases (must_escape c)) [
  | inl e ↦ rw e (decode_field-escape c _ h ∙ ap (λ t. c ∷ t) (decode_field-escape_bytes s k))
  | inr e ↦
      rw e
        (decode_field-cons c _ (not_percent c e) ∙ ap (λ t. c ∷ t) (decode_field-escape_bytes s k))
]

escape_bytes_plain : (s : Bytes) → any must_escape s ≡ false → escape_bytes s ≡ s
unfolding escape_bytes
escape_bytes_plain [] h = refl
escape_bytes_plain (c ∷ s) h = ground (arith, escape_bytes_plain s)

encode_field-escape_bytes : (s : Bytes) → encode_field s ≡ escape_bytes s
unfolding encode_field
encode_field-escape_bytes s = elim (Bool-cases (any must_escape s)) [
  | inl e ↦ rw e
  | inr e ↦ rw e (sym (escape_bytes_plain s e))
]

-- Decoding the escaped form of a log value gives the value back, byte for byte, for every
-- string of bytes below 256.
pub decode_field-encode_field :
    (s : Bytes) → All (λ c. c < 256) s → decode_field (encode_field s) ≡ s
decode_field-encode_field s h = rw (encode_field-escape_bytes s) (decode_field-escape_bytes s h)

-- Bytes that are neither white space nor control bytes.
abbrev pub Printable : Bytes → Type 0
Printable = All (λ c. 0x20 < c)

hex_digit_printable : (n : ℕ) → 0x20 < hex_digit n
unfolding hex_digit
hex_digit_printable n = ground arith

printable_of_kept : (c : ℕ) → must_escape c ≡ false → 0x20 < c
unfolding must_escape
printable_of_kept c e = ground arith

escape_bytes-Printable : (s : Bytes) → Printable (escape_bytes s)
unfolding escape_bytes
escape_bytes-Printable [] = tt
escape_bytes-Printable (c ∷ s) = elim (Bool-cases (must_escape c)) [
  | inl e ↦ rw e (
    omega arith,
    (hex_digit_printable (c / 16), (hex_digit_printable (c % 16), escape_bytes-Printable s)),
  )
  | inr e ↦ rw e (printable_of_kept c e, escape_bytes-Printable s)
]

pub field_or_dash-Printable : (s : Bytes) → Printable (field_or_dash s)
unfolding field_or_dash
field_or_dash-Printable [] = (omega arith, tt)
field_or_dash-Printable (c ∷ s) =
    rw (encode_field-escape_bytes (c ∷ s)) (escape_bytes-Printable (c ∷ s))

digits_from-Printable : (f n : ℕ) (out : Bytes) → Printable out → Printable (digits_from f n out)
unfolding digits_from
digits_from-Printable zero n out h = h
digits_from-Printable (suc f) n out h = elim (Bool-cases (n / 10 == 0)) [
  | inl e ↦ rw e (omega arith, h)
  | inr e ↦ rw e (digits_from-Printable f (n / 10) _ (omega arith, h))
]

pub format_int-Printable : (n : ℤ) → Printable (format_int n)
unfolding format_int format_ℕ
format_int-Printable (pos n) = digits_from-Printable (suc n) n [] tt
format_int-Printable (negsuc n) = (omega arith, digits_from-Printable (suc (suc n)) (suc n) [] tt)

pub status_field-Printable : (n : ℤ) → Printable (status_field n)
unfolding status_field
status_field-Printable n = elim (Bool-cases (le_ℤ n (pos 0))) [
  | inl e ↦ rw e (omega arith)
  | inr e ↦ rw e (format_int-Printable n)
]

pub int_field-Printable : (n : ℤ) → Printable (int_field n)
unfolding int_field
int_field-Printable n = elim (Bool-cases (lt_ℤ n (pos 0))) [
  | inl e ↦ rw e (omega arith)
  | inr e ↦ rw e (format_int-Printable n)
]

-- ===== src/Int64.antt =====
-- int and int64 as words of 64 bits in two's complement: a number below 2 ^ 64.
use gost_x.Prelude.{
  ℕ, ◌+◌, ◌-◌, ◌*◌, ◌%◌, ◌^◌, Bool, ◌&&◌, Option, none, some, [], ◌∷◌, ltb, leb, ◌==◌,
  if◌then◌else◌, is_empty,
}
use gost_x.Text.{Text}

abbrev pub modulus : ℕ
modulus = 2 ^ 64

abbrev pub sign_bit : ℕ
sign_bit = 2 ^ 63

unfoldable pub add64 : ℕ → ℕ → ℕ
add64 a b = (a + b) % modulus

unfoldable pub neg64 : ℕ → ℕ
neg64 a = (modulus - a) % modulus

-- a > b as signed numbers.
unfoldable pub gt64 : ℕ → ℕ → Bool
gt64 a b = ltb ((b + sign_bit) % modulus) ((a + sign_bit) % modulus)

digits_from : ℕ → Text → Option ℕ
digits_from n [] = some n
digits_from n (c ∷ s) =
    let rest = digits_from (n * 10 + (c - b'0')) s in
    if leb b'0' c && leb c b'9' then rest else none

abbrev clamp : ℕ → ℕ → ℕ
clamp top n = if ltb top n then top else n

unsigned : Text → Option ℕ
unfolding digits_from
unsigned s = if is_empty s then none else digits_from 0 s

-- strconv.Atoi with its error dropped: 0 for a text that is no number, the nearest int for one out of
-- range.
unfoldable pub atoi : Text → ℕ
unfolding unsigned
atoi [] = 0
atoi (c ∷ s) =
    if c == b'-'
    then elim (unsigned s) [ none ↦ 0 | some n ↦ (modulus - clamp sign_bit n) % modulus ]
    else elim (unsigned (if c == b'+' then s else c ∷ s)) [
      | none ↦ 0
      | some n ↦ clamp (sign_bit - 1) n
    ]

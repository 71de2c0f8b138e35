-- ===== src/Text/Number.antt =====
-- Numbers in Python text: `str(n)` for a natural number, and `int(s)`.
pub mod RoundTrip
use wassupweb.Prelude.{
  ℕ, zero, suc, ◌+◌, ◌-◌, ◌*◌, ◌/◌, ◌%◌, Bool, ◌&&◌, ◌||◌, Option, none, some, [], ◌∷◌, ltb, leb,
  ◌==◌, if◌then◌else◌, Bytes, Result, ok, err, value_error,
}
use mathlib.Core.List.{reverse}

-- A Python `int`: `negsuc n` is -(n + 1).
pub data ℤ : Type 0 where
  pos : ℕ → ℤ
  negsuc : ℕ → ℤ

-- The decimal digits of a number below 10 ^ fuel, before what stands in `acc`.
decimal_loop : ℕ → ℕ → Bytes → Bytes
decimal_loop zero n acc = acc
decimal_loop (suc fuel) n acc =
    let more = decimal_loop fuel (n / 10) ((48 + n % 10) ∷ acc) in
    if ltb n 10 then (48 + n) ∷ acc else more

-- `str(n)`; a number has at most as many digits as it counts, and one more round for 0.
unfoldable pub decimal : ℕ → Bytes
unfolding decimal_loop
decimal n = decimal_loop (n + 1) n []

-- `str(z)`
unfoldable pub str_int : ℤ → Bytes
unfolding decimal
str_int (pos n) = decimal n
str_int (negsuc n) = b'-' ∷ decimal (n + 1)

is_digit : ℕ → Bool
is_digit c = leb 48 c && leb c 57

-- ASCII characters that `str.strip` removes.
is_space : ℕ → Bool
is_space c = (leb 9 c && leb c 13) || (leb 28 c && leb c 32)

strip_left : Bytes → Bytes
unfolding is_space
strip_left [] = []
strip_left (c ∷ s) = let rest = strip_left s in if is_space c then rest else c ∷ s

strip : Bytes → Bytes
unfolding strip_left
strip s = reverse (strip_left (reverse (strip_left s)))

-- Digits, with single underscores between them; one digit has been read.
digits_loop : ℕ → Bytes → Option ℕ
unfolding is_digit
digits_loop acc [] = some acc
digits_loop acc (c ∷ []) = if is_digit c then some (acc * 10 + (c - 48)) else none
digits_loop acc (c ∷ d ∷ s) =
    let next = digits_loop (acc * 10 + (c - 48)) (d ∷ s) in
    let over = digits_loop (acc * 10 + (d - 48)) s in
    if is_digit c then next else if c == b'_' && is_digit d then over else none

digits : Bytes → Option ℕ
unfolding digits_loop
digits [] = none
digits (c ∷ s) = if is_digit c then digits_loop (c - 48) s else none

negate : ℕ → ℤ
negate zero = pos 0
negate (suc n) = negsuc n

signed : Bytes → Option ℤ
unfolding digits negate
signed [] = none
signed (c ∷ s) =
    if c == b'-'
    then elim (digits s) [ none ↦ none | some n ↦ some (negate n) ]
    else elim (digits (if c == b'+' then s else c ∷ s)) [ none ↦ none | some n ↦ some (pos n) ]

-- `int(s)`, with the decimal digits of ASCII.
unfoldable pub py_int : Bytes → Result ℤ
unfolding strip signed
py_int s = elim (signed (strip s)) [
  | none ↦ err (value_error "invalid literal for int() with base 10")
  | some z ↦ ok z
]

-- ===== src/Text/Number/RoundTrip.antt =====
-- `int(str(n))` is `n`.
use mathlib.Core.List.{reverse, reverse-reverse, reverse-append}
use native.Mathlib.Numerals.{add-one}
use wassupweb.Prelude.{
  ℕ, zero, suc, ◌+◌, ◌-◌, ◌*◌, ◌/◌, ◌%◌, ◌≤◌, ◌<◌, ◌≡◌, refl, sym, ap, ◌∙◌, inl, inr, false, some,
  [], ◌∷◌, arith, ltb, ltb→lt, Bool-cases, ltb→le, Bytes, All, All-append, ok,
}
use wassupweb.Text.Number.{
  pos, decimal_loop, decimal, is_digit, is_space, strip_left, strip, digits_loop, digits, signed,
  py_int,
}

abbrev pub IsDigit : ℕ → Type 0
IsDigit c = (48 ≤ c) × (c ≤ 57)

-- The number that decimal digits stand for, behind those that were read as `acc`.
abbrev value : ℕ → Bytes → ℕ
value acc [] = acc
value acc (c ∷ s) = value (acc * 10 + (c - 48)) s

decimal_loop-IsDigit :
    (fuel n : ℕ) (acc : Bytes) → All IsDigit acc → All IsDigit (decimal_loop fuel n acc)
unfolding decimal_loop
decimal_loop-IsDigit zero n acc h = h
decimal_loop-IsDigit (suc fuel) n acc h = elim (Bool-cases (ltb n 10)) [
  | inl last ↦ rw last (omega (arith, ltb→lt _ _ last), h)
  | inr more ↦ rw more (decimal_loop-IsDigit fuel (n / 10) ((48 + n % 10) ∷ acc) (omega arith, h))
]

value-decimal_loop :
    (fuel n : ℕ) (acc : Bytes) → n < fuel → value 0 (decimal_loop fuel n acc) ≡ value n acc
unfolding decimal_loop
value-decimal_loop zero n acc h = absurd (omega arith)
value-decimal_loop (suc fuel) n acc h = elim (Bool-cases (ltb n 10)) [
  | inl last ↦ rw last (ap (λ (k : ℕ). value k acc) (omega arith))
  | inr more ↦ rw more (
      value-decimal_loop fuel (n / 10) ((48 + n % 10) ∷ acc) (omega (arith, ltb→le _ _ more))
      ∙ ap (λ (k : ℕ). value k acc) (omega arith))
]

-- At least one digit is written.
decimal_loop_cons :
    (fuel n : ℕ) (acc : Bytes) → (c : ℕ) × (s : Bytes) × (decimal_loop (suc fuel) n acc ≡ c ∷ s)
unfolding decimal_loop
decimal_loop_cons zero n acc = elim (Bool-cases (ltb n 10)) [
  | inl last ↦ (48 + n, acc, rw last)
  | inr more ↦ (48 + n % 10, acc, rw more)
]
decimal_loop_cons (suc fuel) n acc = elim (Bool-cases (ltb n 10)) [
  | inl last ↦ (48 + n, acc, rw last)
  | inr more ↦
      let (c, s, e) = decimal_loop_cons fuel (n / 10) ((48 + n % 10) ∷ acc) in (c, s, rw more e)
]

not_space : (c : ℕ) → IsDigit c → is_space c ≡ false
unfolding is_space
not_space c h = ground arith

strip_left-IsDigit : (s : Bytes) → All IsDigit s → strip_left s ≡ s
unfolding strip_left
strip_left-IsDigit [] h = refl
strip_left-IsDigit (c ∷ s) (hc, hs) = rw (not_space c hc)

All-reverse : (s : Bytes) → All IsDigit s → All IsDigit (reverse s)
All-reverse [] h = h
All-reverse (c ∷ s) (hc, hs) =
    rw (reverse-append (c ∷ []) s)
      (All-append IsDigit (reverse s) (c ∷ []) (All-reverse s hs) (hc, tt))

strip-IsDigit : (s : Bytes) → All IsDigit s → strip s ≡ s
unfolding strip
strip-IsDigit s h =
    rw (strip_left-IsDigit s h, strip_left-IsDigit (reverse s) (All-reverse s h), reverse-reverse)

digits_loop-value : (s : Bytes) (acc : ℕ) → All IsDigit s → digits_loop acc s ≡ some (value acc s)
unfolding digits_loop is_digit
digits_loop-value [] acc h = refl
digits_loop-value (c ∷ []) acc (hc, _) = ground arith
digits_loop-value (c ∷ d ∷ s) acc (hc, hs) =
    ground (arith, digits_loop-value (d ∷ s) (acc * 10 + (c - 48)) hs)

signed-IsDigit :
    (c : ℕ) (s : Bytes) → All IsDigit (c ∷ s) → signed (c ∷ s) ≡ some (pos (value 0 (c ∷ s)))
unfolding signed digits is_digit
signed-IsDigit c s (hc, hs) = ground (arith, digits_loop-value s (c - 48) hs)

py_int-IsDigit :
    (c : ℕ) (s : Bytes) → All IsDigit (c ∷ s) → py_int (c ∷ s) ≡ ok (pos (value 0 (c ∷ s)))
unfolding py_int
py_int-IsDigit c s h = rw (strip-IsDigit (c ∷ s) h, py_int) (rw (signed-IsDigit c s h))

pub decimal-IsDigit : (n : ℕ) → All IsDigit (decimal n)
unfolding decimal
decimal-IsDigit n = decimal_loop-IsDigit (n + 1) n [] tt

pub decimal_cons : (n : ℕ) → (c : ℕ) × (s : Bytes) × (decimal n ≡ c ∷ s)
unfolding decimal
decimal_cons n = rw add-one (decimal_loop_cons n n [])

decimal-value : (n : ℕ) → value 0 (decimal n) ≡ n
unfolding decimal
decimal-value n = value-decimal_loop (n + 1) n [] (omega arith)

-- The decimal form of a natural number is read back as that number.
pub py_int-decimal : (n : ℕ) → py_int (decimal n) ≡ ok (pos n)
py_int-decimal n =
    let (c, s, e) = decimal_cons n in
    rw e (py_int-IsDigit c s (rw e at (decimal-IsDigit n)))
    ∙ ap (λ (d : Bytes). ok (pos (value 0 d))) (sym e)
    ∙ ap (λ (k : ℕ). ok (pos k)) (decimal-value n)

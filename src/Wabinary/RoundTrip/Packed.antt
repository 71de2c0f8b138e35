-- ===== src/Wabinary/RoundTrip/Packed.antt =====
-- Texts of nibble or hexadecimal characters, two to a byte.
use wassupweb.Prelude.{
  ℕ, suc, ◌+◌, ◌-◌, ◌*◌, ◌/◌, ◌%◌, ◌<◌, ◌≡◌, refl, ap, ◌∙◌, inl, inr, Bool, true, [], ◌∷◌, ◌++◌,
  arith, leb, ◌==◌, Bool-cases, Bytes, length, take, Result, ok,
}
use wassupweb.Text.{Text}
use wassupweb.Wabinary.Encode.Write.{
  pack_nibble, pack_hex, pack_pairs, every, nibble_char, hex_char,
}
use wassupweb.Wabinary.Decode.Reader.{read_byte, unpack_hex, unpack_nibble, unpack_pairs}

-- A character packs into a half byte that unpacks into it.
abbrev pub Packs : (ℕ → Result ℕ) → (ℕ → Result ℕ) → ℕ → Type 0
Packs pack unpack c = (n : ℕ) × (pack c ≡ ok n) × (n < 16) × (unpack n ≡ ok c)

pub nibble-Packs : (c : ℕ) → nibble_char c ≡ true → Packs pack_nibble unpack_nibble c
unfolding nibble_char pack_nibble unpack_nibble
nibble-Packs c h = elim (Bool-cases (c == b'-')) [
  | inl dash ↦ (10, ground arith, omega arith, ground arith)
  | inr other ↦ elim (Bool-cases (c == b'.')) [
    | inl dot ↦ (11, ground arith, omega arith, ground arith)
    | inr digit ↦ (c - 48, ground arith, ground arith, ground arith)
  ]
]

pub hex-Packs : (c : ℕ) → hex_char c ≡ true → Packs pack_hex unpack_hex c
unfolding hex_char pack_hex unpack_hex
hex-Packs c h = elim (Bool-cases (leb c 57)) [
  | inl digit ↦ (c - 48, ground arith, ground arith, ground arith)
  | inr letter ↦ (10 + c - 65, ground arith, ground arith, ground arith)
]

-- The characters that come out: an odd text gets `x` at its end.
abbrev pub padded : ℕ → Text → Text
padded x [] = []
padded x (a ∷ []) = a ∷ x ∷ []
padded x (a ∷ b ∷ s) = a ∷ b ∷ padded x s

module _ (pack unpack : ℕ → Result ℕ) (f : ℕ → Bool) (x : ℕ)
    (char : (c : ℕ) → f c ≡ true → Packs pack unpack c) (pad : pack 0 ≡ ok 15)
    (unpad : unpack 15 ≡ ok x) where
  unpack_one :
      (a b m n : ℕ) (pairs s : Bytes) (rest : Text)
      → m < 16
      → n < 16
      → unpack m ≡ ok a
      → unpack n ≡ ok b
      → unpack_pairs unpack (length pairs) (pairs ++ s) ≡ ok (rest, s)
      → unpack_pairs unpack (suc (length pairs)) ((16 * m + n) ∷ (pairs ++ s))
        ≡ ok (a ∷ b ∷ rest, s)
  unfolding unpack_pairs read_byte
  unpack_one a b m n pairs s rest hm hn ua ub ih =
      let high : (16 * m + n) / 16 % 16 ≡ m = omega arith in
      let low : (16 * m + n) % 16 ≡ n = omega arith in rw (high, low, ua, ub, ih)

  -- Packing succeeds, takes half a byte for each character, and unpacks into the padded text.
  pub pack_pairs_trip :
      (v : Text)
      → every f v ≡ true
      → (pairs : Bytes) × (pack_pairs pack v ≡ ok pairs)
        × (length pairs ≡ (length v + 1) / 2)
        × ((s : Bytes) → unpack_pairs unpack (length pairs) (pairs ++ s) ≡ ok (padded x v, s))
  unfolding pack_pairs every
  pack_pairs_trip [] h = ([], refl, omega arith, λ s. unfold unpack_pairs in refl)
  pack_pairs_trip (a ∷ []) h =
      let (m, pa, hm, ua) = char a (ground arith) in
      (
        (16 * m + 15) ∷ [],
        rw (pa, pad),
        omega arith,
        λ s. unpack_one a x m 15 [] s [] hm (omega arith) ua unpad (unfold unpack_pairs in refl),
      )
  pack_pairs_trip (a ∷ b ∷ v) h =
      let (m, pa, hm, ua) = char a (ground arith) in
      let (n, pb, hn, ub) = char b (ground arith) in
      let (pairs, pv, size, uv) = pack_pairs_trip v (ground arith) in
      (
        (16 * m + n) ∷ pairs,
        rw (pa, pb, pv),
        omega (arith, size),
        λ s. unpack_one a b m n pairs s (padded x v) hm hn ua ub (uv s),
      )

pub padded_even : (x : ℕ) (v : Text) → length v % 2 ≡ 0 → padded x v ≡ v
padded_even x [] h = refl
padded_even x (a ∷ []) h = absurd (omega arith)
padded_even x (a ∷ b ∷ v) h = ap (λ (t : Text). a ∷ b ∷ t) (padded_even x v (omega arith))

length-padded : (x : ℕ) (v : Text) → length v % 2 ≡ 1 → length (padded x v) ≡ suc (length v)
length-padded x [] h = absurd (omega arith)
length-padded x (a ∷ []) h = refl
length-padded x (a ∷ b ∷ v) h = omega (arith, length-padded x v (omega arith))

take-padded : (x : ℕ) (v : Text) → length v % 2 ≡ 1 → take (length v) (padded x v) ≡ v
take-padded x [] h = refl
take-padded x (a ∷ []) h = refl
take-padded x (a ∷ b ∷ v) h = ap (λ (t : Text). a ∷ b ∷ t) (take-padded x v (omega arith))

pub padded_odd :
    (x : ℕ) (v : Text) → length v % 2 ≡ 1 → take (length (padded x v) - 1) (padded x v) ≡ v
padded_odd x v h =
    ap (λ (n : ℕ). take n (padded x v)) (omega (arith, length-padded x v h)) ∙ take-padded x v h

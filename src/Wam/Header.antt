-- ===== src/Wam/Header.antt =====
-- The header of a record is read as it was written.
use wassupweb.Prelude.{
  ℕ, zero, suc, ◌+◌, ◌*◌, ◌/◌, ◌%◌, ◌<◌, bit_or, ◌≡◌, refl, ◌∙◌, ◌⊎◌, inl, inr, Bool, true, false,
  ◌&&◌, [], ◌∷◌, ◌++◌, arith, ltb, ◌==◌, if◌then◌else◌, Bytes, ◌>>=◌, ok,
}
use wassupweb.Wam.Serialize.{pack_u16, serialize_header}
use wassupweb.Wam.Reader.{read_u16, read_header}
use wassupweb.Wabinary.Decode.Reader.{read_byte}

-- A flag beside a kind, and beside the mark of a wide number.
bits_hold : ℕ → Bool
bits_hold x =
    bit_or (x % 8) (x / 8 * 16) == x % 8 + x / 8 * 16
    && bit_or (x % 8 + x / 8 * 16) 8 == x % 8 + x / 8 * 16 + 8

all_below : ℕ → (ℕ → Bool) → Bool
all_below zero p = true
all_below (suc n) p = p n && all_below n p

all_below_lem : (n : ℕ) (p : ℕ → Bool) (x : ℕ) → all_below n p ≡ true → x < n → p x ≡ true
unfolding all_below
all_below_lem zero p x h lt = absurd (omega arith)
all_below_lem (suc n) p x h lt = ground (arith, all_below_lem n p x)

bits_table : all_below 128 bits_hold ≡ true
unfolding all_below bits_hold
bits_table = refl

bits_lem :
    (flag t : ℕ)
    → flag < 8
    → t < 16
    → (bit_or flag (t * 16) ≡ flag + t * 16) × (bit_or (flag + t * 16) 8 ≡ flag + t * 16 + 8)
unfolding bits_hold
bits_lem flag t hf ht =
    let x : ℕ = flag + t * 8 in
    let low : x % 8 ≡ flag = omega arith in
    let high : x / 8 ≡ t = omega arith in
    let h : bits_hold x ≡ true = all_below_lem 128 bits_hold x bits_table (omega arith) in
    both (bit_or flag (t * 16)) (bit_or (flag + t * 16) 8) (flag + t * 16) (rw (low, high) at h)
  where
    both : (a b n : ℕ) → (a == n && b == n + 8) ≡ true → (a ≡ n) × (b ≡ n + 8)
    both a b n h = ground arith

read_narrow :
    (b key : ℕ) (s : Bytes)
    → (b / 8 % 2 == 1) ≡ false
    → read_header (b ∷ key ∷ s) ≡ ok ((b % 8, b / 16, key), s)
unfolding read_header read_byte
read_narrow b key s h = rw h

read_wide :
    (b lo hi : ℕ) (s : Bytes)
    → (b / 8 % 2 == 1) ≡ true
    → read_header (b ∷ lo ∷ hi ∷ s) ≡ ok ((b % 8, b / 16, lo + 256 * hi), s)
unfolding read_header read_byte read_u16
read_wide b lo hi s h = rw h

-- The header's first byte, and the number as it is read.
header_parts :
    (key flag t : ℕ) (header : Bytes)
    → flag < 8
    → t < 16
    → serialize_header key (bit_or flag (t * 16)) ≡ ok header
    → (header ≡ (flag + t * 16) ∷ key ∷ [])
      ⊎ ((key < 65536) × (header ≡ (flag + t * 16 + 8) ∷ (key % 256) ∷ (key / 256) ∷ []))
unfolding serialize_header pack_u16
header_parts key flag t header hf ht h =
    let (plain_bits, wide_bits) = bits_lem flag t hf ht in
    parts (flag + t * 16) (flag + t * 16 + 8) (rw (plain_bits, wide_bits) at h)
  where
    parts :
        (x y : ℕ)
        → (if ltb key 256 then ok (x ∷ key ∷ []) else (pack_u16 key >>= λ n. ok (y ∷ n)))
          ≡ ok header
        → (header ≡ x ∷ key ∷ []) ⊎ ((key < 65536) × (header ≡ y ∷ (key % 256) ∷ (key / 256) ∷ []))
    parts x y h = ground arith

pub header_back :
    (key flag t : ℕ) (header s : Bytes)
    → flag < 8
    → t < 16
    → serialize_header key (bit_or flag (t * 16)) ≡ ok header
    → read_header (header ++ s) ≡ ok ((flag, t, key), s)
header_back key flag t header s hf ht h = elim (header_parts key flag t header hf ht h) [
  | inl e ↦
      let odd : ((flag + t * 16) / 8 % 2 == 1) ≡ false = ground arith in
      let low : (flag + t * 16) % 8 ≡ flag = omega arith in
      let high : (flag + t * 16) / 16 ≡ t = omega arith in
      rw e (read_narrow (flag + t * 16) key s odd ∙ rw (low, high))
  | inr (small, e) ↦
      let odd : ((flag + t * 16 + 8) / 8 % 2 == 1) ≡ true = ground arith in
      let low : (flag + t * 16 + 8) % 8 ≡ flag = omega arith in
      let high : (flag + t * 16 + 8) / 16 ≡ t = omega arith in
      let whole : key % 256 + 256 * (key / 256) ≡ key = omega arith in
      rw e (read_wide (flag + t * 16 + 8) (key % 256) (key / 256) s odd ∙ rw (low, high, whole))
]

-- ===== src/Wabinary/RoundTrip/Sizes.antt =====
-- Lengths, raw bytes and list headers.
use wassupweb.Prelude.{
  ℕ, ◌+◌, ◌/◌, ◌%◌, ◌≤◌, ◌<◌, ◌≡◌, inl, inr, false, [], ◌∷◌, ◌++◌, arith, ltb, leb, le→ltb,
  Bool-cases, Bytes, length, length-append, take-length-append, drop-length-append, ◌>>=◌, ok,
}
use wassupweb.Wabinary.Tag
use wassupweb.Wabinary.Encode.Write.{write_byte_length, write_list_start}
use wassupweb.Wabinary.Decode.{read_list_size}
use wassupweb.Wabinary.Decode.Reader.{read_byte, read_bytes, read_int, read_int20}

pub read_bytes-append : (v s : Bytes) → read_bytes (length v) (v ++ s) ≡ ok (v, s)
unfolding read_bytes
read_bytes-append v s = rw (
  le→ltb (length (v ++ s)) (length v) (omega (arith, length-append v s)),
  take-length-append v s,
  drop-length-append v s,
)

-- The three forms of a length.
pub data SizeForm (n : ℕ) : Bytes → Type 0 where
  in_byte : n < 256 → SizeForm n (Tag.binary_8 ∷ n ∷ [])
  in_20_bits :
      256 ≤ n
      → n < 1048576
      → SizeForm n (Tag.binary_20 ∷ (n / 65536 % 16) ∷ (n / 256 % 256) ∷ (n % 256) ∷ [])
  in_32_bits :
      1048576 ≤ n
      → n < 4294967296
      → SizeForm n (
          Tag.binary_32
          ∷ (n / 16777216 % 256)
          ∷ (n / 65536 % 256)
          ∷ (n / 256 % 256)
          ∷ (n % 256)
          ∷ [])

pub write_byte_length-SizeForm :
    (n : ℕ) → n < 4294967296 → (size : Bytes) × (write_byte_length n ≡ ok size) × SizeForm n size
unfolding write_byte_length
write_byte_length-SizeForm n h = elim (Bool-cases (leb 1048576 n)) [
  | inl big ↦ (_, rw (le→leb h, big), in_32_bits (ground arith) h)
  | inr small ↦ elim (Bool-cases (leb 256 n)) [
    | inl middle ↦ (_, rw (le→leb h, small, middle), in_20_bits (ground arith) (ground arith))
    | inr byte ↦ (_, rw (le→leb h, small, byte), in_byte (ground arith))
  ]
]
  where
    le→leb : n < 4294967296 → leb 4294967296 n ≡ false
    le→leb h = ground arith

pub read_int20-back :
    (n : ℕ) (s : Bytes)
    → n < 1048576
    → read_int20 ((n / 65536 % 16) ∷ (n / 256 % 256) ∷ (n % 256) ∷ s) ≡ ok (n, s)
unfolding read_int20
read_int20-back n s h = ground arith

pub read_int4-back :
    (n : ℕ) (s : Bytes)
    → n < 4294967296
    → read_int 4 ((n / 16777216 % 256) ∷ (n / 65536 % 256) ∷ (n / 256 % 256) ∷ (n % 256) ∷ s)
      ≡ ok (n, s)
unfolding read_int
read_int4-back n s h = let long : ltb (length s + 4) 4 ≡ false = ground arith in ground arith

pub read_list_size-back :
    (n : ℕ) (s : Bytes)
    → n < 65536
    → (read_byte (write_list_start n ++ s) >>= λ b. read_list_size b.0 b.1) ≡ ok (n, s)
unfolding write_list_start read_byte read_list_size read_int
read_list_size-back n s h = ground arith

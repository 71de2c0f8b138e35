-- ===== src/Bytes.antt =====
-- Fixed-width integers as bytes: `struct.pack("<I", n)`, `struct.unpack_from("<I", b, offset)` and
-- the shifts of three big-endian bytes that frames use.
use wassupweb.Prelude.{
  ℕ, ◌+◌, ◌*◌, ◌/◌, ◌%◌, ◌<◌, ◌≡◌, [], ◌∷◌, ◌++◌, Bytes, Result, ok, err, struct_error, arith, drop,
  ltb, if◌then◌else◌,
}

abbrev pub u32_mod : ℕ
u32_mod = 4294967296

-- The four bytes of `struct.pack("<I", n)` for n in range.
abbrev pub u32_bytes : ℕ → Bytes
u32_bytes n = (n % 256) ∷ (n / 256 % 256) ∷ (n / 65536 % 256) ∷ (n / 16777216 % 256) ∷ []

unfoldable pub pack_u32 : ℕ → Result Bytes
pack_u32 n = if ltb n u32_mod then ok (u32_bytes n) else err struct_error

unpack_head : Bytes → Result ℕ
unpack_head (a ∷ b ∷ c ∷ d ∷ rest) = ok (a + 256 * b + 65536 * c + 16777216 * d)
unpack_head _ = err struct_error

unfoldable pub unpack_u32 : Bytes → ℕ → Result ℕ
unfolding unpack_head
unpack_u32 bytes offset = unpack_head (drop offset bytes)

-- Reading back four packed bytes, whatever stands behind them.
pub unpack-pack :
    (n : ℕ) (bytes rest : Bytes) (offset : ℕ)
    → n < u32_mod
    → drop offset bytes ≡ u32_bytes n ++ rest
    → unpack_u32 bytes offset ≡ ok n
unfolding unpack_u32
unpack-pack n bytes rest offset h e = rw e (ap_ok _ _ (omega arith))
  where
    ap_ok : (a b : ℕ) → a ≡ b → ok a ≡ ok b
    ap_ok a b e = cc

pub pack_u32_lem : (n : ℕ) → n < u32_mod → pack_u32 n ≡ ok (u32_bytes n)
unfolding pack_u32
pack_u32_lem n h = ground arith

pub pack_u32_inv :
    (n : ℕ) (bytes : Bytes) → pack_u32 n ≡ ok bytes → (n < u32_mod) × (bytes ≡ u32_bytes n)
unfolding pack_u32
pack_u32_inv n bytes h = ground arith

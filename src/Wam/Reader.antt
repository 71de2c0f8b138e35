-- ===== src/Wam/Reader.antt =====
-- An independent reader of the records that `encode_wam` writes.
use wassupweb.Prelude.{
  ℕ, zero, suc, ◌+◌, ◌-◌, ◌*◌, ◌/◌, ◌%◌, ◌&&◌, List, [], ◌∷◌, ltb, ◌==◌, if◌then◌else◌, Bytes,
  length, Result, ◌>>=◌, ok, err, value_error, recursion_error,
}
use wassupweb.Text.Number.{ℤ, pos, negsuc}
use wassupweb.Wam.Serialize.{within}
use wassupweb.Wam.{Doubles, Value, nothing, int, double, text}
use wassupweb.Wabinary.Decode.Reader.{Read, read_byte, read_bytes}

pub record Field (F : Type 0) : Type 0 where
  pub flag : ℕ
  pub key : ℕ
  pub value : Value F

-- Two's complement; `bound` is 2 ^ w.
unfoldable pub signed_of : ℕ → ℕ → ℤ
signed_of bound n = if ltb (2 * n) bound then pos n else negsuc (bound - 1 - n)

unfoldable pub read_u16 : Read ℕ
read_u16 (a ∷ b ∷ s) = ok (a + 256 * b, s)
read_u16 s = err (value_error "end of stream")

unfoldable pub read_u32 : Read ℕ
read_u32 (a ∷ b ∷ c ∷ d ∷ s) = ok (a + 256 * b + 65536 * c + 16777216 * d, s)
read_u32 s = err (value_error "end of stream")

-- Flag, kind and number.
unfoldable pub read_header : Read (ℕ × ℕ × ℕ)
unfolding read_byte read_u16
read_header s = do
  (b, s1) ← read_byte s
  (key, s2) ← (if b / 8 % 2 == 1 then read_u16 s1 else read_byte s1)
  ok ((b % 8, b / 16, key), s2)

module _ {F : Type 0} (unpack_double : Bytes → F) where
  unfoldable pub read_sized : Read ℕ → Read (Value F)
  read_sized size s = do (n, s1) ← size s; (v, s2) ← read_bytes n s1; ok (text v, s2)

  unfoldable pub read_signed : ℕ → Read ℕ → Read (Value F)
  read_signed bound number s = do (n, s1) ← number s; ok (int (signed_of bound n), s1)

  unfoldable pub read_value : ℕ → Read (Value F)
  unfolding read_sized read_signed signed_of read_byte read_bytes read_u16 read_u32
  read_value kind s =
      if kind == 0
      then ok (nothing, s)
      else if kind == 1
      then ok (int (pos 0), s)
      else if kind == 2
      then ok (int (pos 1), s)
      else if kind == 3
      then read_signed 256 read_byte s
      else if kind == 4
      then read_signed 65536 read_u16 s
      else if kind == 5
      then read_signed 4294967296 read_u32 s
      else if kind == 7
      then (do (b, s1) ← read_bytes 8 s; ok (double (unpack_double b), s1))
      else if kind == 8
      then read_sized read_byte s
      else if kind == 9
      then read_sized read_u16 s
      else if kind == 10
      then read_sized read_u32 s
      else err (value_error "unknown kind")

  unfoldable pub read_field : Read (Field F)
  unfolding read_header read_value
  read_field s = do
    ((flag, kind, key), s1) ← read_header s
    (value, s2) ← read_value kind s1
    ok (record { flag = flag; key = key; value = value }, s2)

  -- All records up to the end; each takes a byte at least.
  unfoldable pub read_fields : ℕ → Bytes → Result (List (Field F))
  unfolding read_field
  read_fields fuel [] = ok []
  read_fields zero (b ∷ s) = err recursion_error
  read_fields (suc fuel) (b ∷ s) = do
    (field, s1) ← read_field (b ∷ s)
    rest ← read_fields fuel s1
    ok (field ∷ rest)

  -- The eight bytes of the header, and the records behind it.
  unfoldable pub read_wam : Bytes → Result (ℕ × ℕ × List (Field F))
  unfolding read_fields
  read_wam (w ∷ a ∷ m ∷ version ∷ one ∷ hi ∷ lo ∷ last ∷ s) =
      if w == b'W' && a == b'A' && m == b'M' && one == 1 && last == 0
      then (do fields ← read_fields (length s) s; ok (version, 256 * hi + lo, fields))
      else err (value_error "not a buffer of events")
  read_wam s = err (value_error "not a buffer of events")

-- The value that a record shows: a whole number of more than 32 bits is a `float`.
unfoldable pub seen_of : {F : Type 0} → Doubles F → Value F → Result (Value F)
unfolding within
seen_of d nothing = ok nothing
seen_of d (int z) = if within 2147483648 z then ok (int z) else (do x ← d.of_int z; ok (double x))
seen_of d (double x) = ok (double x)
seen_of d (text v) = ok (text v)

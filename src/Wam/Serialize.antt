-- ===== src/Wam/Serialize.antt =====
-- wassupweb/wam/encode.py: the bytes of one value.
use wassupweb.Prelude.{
  ℕ, zero, suc, ◌+◌, ◌-◌, ◌*◌, ◌/◌, ◌%◌, bit_or, Bool, Option, none, some, [], ◌∷◌, ◌++◌, ltb, ◌==◌,
  if◌then◌else◌, Bytes, length, Result, ◌>>=◌, ok, err, value_error, struct_error,
}
use wassupweb.Text.{Text}
use wassupweb.Text.Number.{ℤ, pos, negsuc}
use wassupweb.Wam.{Doubles, Value, nothing, int, double, text, flag_byte, flag_global}

-- The number whose digits to the base 256 are those of `z` in two's complement; `bound` is 2 ^ w.
unfoldable pub unsigned : ℕ → ℤ → ℕ
unsigned bound (pos n) = n % bound
unsigned bound (negsuc n) = bound - 1 - n % bound

-- `-bound <= value < bound`
unfoldable pub within : ℕ → ℤ → Bool
within bound (pos n) = ltb n bound
within bound (negsuc n) = ltb n bound

-- `struct.pack_into("<H", buffer, offset, n)`
unfoldable pub pack_u16 : ℕ → Result Bytes
pack_u16 n = if ltb n 65536 then ok ((n % 256) ∷ (n / 256) ∷ []) else err struct_error

unfoldable pub serialize_header : ℕ → ℕ → Result Bytes
unfolding pack_u16
serialize_header key flag =
    if ltb key 256
    then ok (flag ∷ key ∷ [])
    else (do number ← pack_u16 key; ok (bit_or flag flag_byte ∷ number))

-- A header for a value of the kind `t`, and the bytes of the value.
unfoldable pub with_header : ℕ → ℕ → ℕ → Bytes → Result Bytes
unfolding serialize_header
with_header key flag t value = do
  header ← serialize_header key (bit_or flag (t * 16))
  ok (header ++ value)

-- `value` is 0 or 1.
unfoldable pub bit_of : ℤ → Option ℕ
bit_of (pos zero) = some 0
bit_of (pos (suc zero)) = some 1
bit_of _ = none

unfoldable pub u16_bytes : ℕ → Bytes
u16_bytes n = (n % 256) ∷ (n / 256 % 256) ∷ []

unfoldable pub u32_bytes : ℕ → Bytes
u32_bytes n = (n % 256) ∷ (n / 256 % 256) ∷ (n / 65536 % 256) ∷ (n / 16777216 % 256) ∷ []

unfoldable pub serialize_text : ℕ → ℕ → Text → Result Bytes
unfolding with_header u16_bytes u32_bytes
serialize_text key flag s =
    let size = length s in
    if ltb size 256
    then with_header key flag 8 (size ∷ s)
    else if ltb size 65536
    then with_header key flag 9 (u16_bytes size ++ s)
    else if ltb size 4294967296
    then with_header key flag 10 (u32_bytes size ++ s)
    else err struct_error

module _ {F : Type 0} (d : Doubles F) where
  unfoldable pub serialize_double : ℕ → ℕ → F → Result Bytes
  unfolding with_header
  serialize_double key flag x = with_header key flag 7 (d.pack_double x)

  unfoldable pub serialize_int : ℕ → ℕ → ℤ → Result Bytes
  unfolding with_header bit_of within unsigned u16_bytes u32_bytes serialize_double
  serialize_int key flag z = elim (bit_of z) [
    | some bit ↦ with_header key flag (bit + 1) []
    | none ↦
        if within 128 z
        then with_header key flag 3 (unsigned 256 z ∷ [])
        else if within 32768 z
        then with_header key flag 4 (u16_bytes (unsigned 65536 z))
        else if within 2147483648 z
        then with_header key flag 5 (u32_bytes (unsigned 4294967296 z))
        else (do
          header ← serialize_header key (bit_or flag (7 * 16))
          x ← d.of_int z
          ok (header ++ d.pack_double x))
  ]

  unfoldable pub serialize_data : ℕ → Value F → ℕ → Result Bytes
  unfolding serialize_header serialize_int serialize_double serialize_text
  serialize_data key nothing flag =
      if flag == flag_global
      then serialize_header key flag
      else err (value_error "missing value for non-global WAM field")
  serialize_data key (int z) flag = serialize_int key flag z
  serialize_data key (double x) flag = serialize_double key flag x
  serialize_data key (text s) flag = serialize_text key flag s

-- ===== src/Wabinary/Encode/Write.antt =====
-- wassupweb/wabinary/encode.py: the writers of lengths, packed texts, addresses and texts.
use wassupweb.Prelude.{
  ℕ, zero, suc, ◌+◌, ◌-◌, ◌*◌, ◌/◌, ◌%◌, Bool, true, ◌&&◌, ◌||◌, Option, none, some, [], ◌∷◌, ◌++◌,
  ltb, leb, ◌==◌, if◌then◌else◌, Bytes, length, Result, ◌>>=◌, ok, err, value_error,
  recursion_error,
}
use wassupweb.Text.{Text}
use wassupweb.Text.Number.{ℤ, pos, negsuc}
use wassupweb.Wabinary.Tag
use wassupweb.Wabinary.Node.{Token, single, double, Tables}
use wassupweb.Wabinary.Jid.{FullJid, jid_decode}

-- The low byte of an `int`, also of a negative one.
unfoldable pub low_byte : ℤ → ℕ
low_byte (pos n) = n % 256
low_byte (negsuc n) = 255 - n % 256

unfoldable pub write_byte_length : ℕ → Result Bytes
write_byte_length n =
    if leb 4294967296 n
    then err (value_error "string too large to encode")
    else if leb 1048576 n
    then ok (
        Tag.binary_32 ∷ (n / 16777216 % 256) ∷ (n / 65536 % 256) ∷ (n / 256 % 256) ∷ (n % 256) ∷ [])
    else if leb 256 n
    then ok (Tag.binary_20 ∷ (n / 65536 % 16) ∷ (n / 256 % 256) ∷ (n % 256) ∷ [])
    else ok (Tag.binary_8 ∷ n ∷ [])

unfoldable pub write_string_raw : Text → Result Bytes
write_string_raw value = do size ← write_byte_length (length value); ok (size ++ value)

unfoldable pub write_list_start : ℕ → Bytes
write_list_start n =
    if n == 0
    then Tag.list_empty ∷ []
    else if ltb n 256
    then Tag.list_8 ∷ n ∷ []
    else Tag.list_16 ∷ (n / 256 % 256) ∷ (n % 256) ∷ []

unfoldable pub is_decimal : ℕ → Bool
is_decimal c = leb 48 c && leb c 57

unfoldable pub pack_nibble : ℕ → Result ℕ
unfolding is_decimal
pack_nibble c =
    if c == b'-'
    then ok 10
    else if c == b'.'
    then ok 11
    else if c == 0
    then ok 15
    else if is_decimal c
    then ok (c - 48)
    else err (value_error "invalid byte for nibble")

unfoldable pub pack_hex : ℕ → Result ℕ
unfolding is_decimal
pack_hex c =
    if is_decimal c
    then ok (c - 48)
    else if leb 65 c && leb c 70
    then ok (10 + c - 65)
    else if leb 97 c && leb c 102
    then ok (10 + c - 97)
    else if c == 0
    then ok 15
    else err (value_error "Invalid hex char")

-- Two characters to a byte; a single last one is paired with "\x00".
unfoldable pub pack_pairs : (ℕ → Result ℕ) → Text → Result Bytes
pack_pairs pack [] = ok []
pack_pairs pack (a ∷ []) = do high ← pack a; low ← pack 0; ok ((16 * high + low) ∷ [])
pack_pairs pack (a ∷ b ∷ s) = do
  high ← pack a
  low ← pack b
  rest ← pack_pairs pack s
  ok ((16 * high + low) ∷ rest)

unfoldable pub write_packed_bytes : ℕ → (ℕ → Result ℕ) → Text → Result Bytes
unfolding pack_pairs
write_packed_bytes tag pack value =
    if ltb Tag.packed_max (length value) then err (value_error "Too many bytes to pack") else do
      let half = (length value + 1) / 2
      let rounded = if length value % 2 == 0 then half else half + 128
      pairs ← pack_pairs pack value
      ok (tag ∷ rounded ∷ pairs)

unfoldable pub every : (ℕ → Bool) → Text → Bool
every f [] = true
every f (c ∷ s) = f c && every f s

unfoldable pub nibble_char : ℕ → Bool
unfolding is_decimal
nibble_char c = is_decimal c || c == b'-' || c == b'.'

unfoldable pub hex_char : ℕ → Bool
unfolding is_decimal
hex_char c = is_decimal c || (leb 65 c && leb c 70)

unfoldable pub packs : (ℕ → Bool) → Text → Bool
unfolding every
packs f value = ltb 0 (length value) && leb (length value) Tag.packed_max && every f value

unfoldable pub is_nibble : Text → Bool
unfolding packs nibble_char
is_nibble = packs nibble_char

unfoldable pub is_hex : Text → Bool
unfolding packs hex_char
is_hex = packs hex_char

-- `write_jid` and `write_string`, with `write` for the calls of `write_string` further in.
unfoldable pub write_user : (Text → Result Bytes) → Text → Result Bytes
write_user write [] = ok (Tag.list_empty ∷ [])
write_user write (c ∷ s) = write (c ∷ s)

unfoldable pub write_jid : (Text → Result Bytes) → FullJid → Result Bytes
write_jid write j = elim j.device [
  | some d ↦ do user ← write j.user; ok (Tag.ad_jid ∷ (j.domain_type % 256) ∷ low_byte d ∷ user)
  | none ↦ do
    user ← write_user write j.user
    server ← write j.server
    ok (Tag.jid_pair ∷ (user ++ server))
]

unfoldable pub write_token : Token → Bytes
write_token (single i) = (i % 256) ∷ []
write_token (double d i) = ((Tag.dictionary_0 + d) % 256) ∷ (i % 256) ∷ []

unfoldable pub write_address : (Text → Result Bytes) → Text → Option FullJid → Result Bytes
write_address write value none = write_string_raw value
write_address write value (some j) = write_jid write j

unfoldable pub write_untabled : (Text → Result Bytes) → Text → Result Bytes
write_untabled write value =
    if is_nibble value
    then write_packed_bytes Tag.nibble_8 pack_nibble value
    else if is_hex value
    then write_packed_bytes Tag.hex_8 pack_hex value
    else do decoded ← jid_decode value; write_address write value decoded

unfoldable pub write_known : (Text → Result Bytes) → Text → Option Token → Result Bytes
write_known write value (some token) = ok (write_token token)
write_known write value none = write_untabled write value

unfoldable pub write_step : Tables → (Text → Result Bytes) → Text → Result Bytes
write_step t write [] = write_string_raw []
write_step t write (c ∷ s) = write_known write (c ∷ s) (t.token_map (c ∷ s))

unfoldable pub write_string : Tables → ℕ → Text → Result Bytes
write_string t zero value = err recursion_error
write_string t (suc fuel) value = write_step t (write_string t fuel) value

-- The texts further in are shorter, so a round for each character and one more are enough.
unfoldable pub write_text : Tables → Text → Result Bytes
write_text t value = write_string t (suc (length value)) value

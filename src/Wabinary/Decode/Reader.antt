-- ===== src/Wabinary/Decode/Reader.antt =====
-- wassupweb/wabinary/decode.py: the readers of bytes, numbers, packed texts, addresses and texts.
use wassupweb.Prelude.{
  ℕ, zero, suc, ◌+◌, ◌-◌, ◌*◌, ◌/◌, ◌%◌, ◌&&◌, ◌||◌, none, some, [], ◌∷◌, ◌++◌, ltb, leb, ◌==◌,
  if◌then◌else◌, Bytes, length, get_elem?, take, drop, Result, ◌>>=◌, ok, err, value_error,
  index_error, recursion_error,
}
use wassupweb.Text.{Text, ascii, decode_utf8}
use wassupweb.Text.Number.{pos, str_int}
use wassupweb.Wabinary.Tag
use wassupweb.Wabinary.Node.{Tables}
use wassupweb.Wabinary.Jid.{lid_domain, hosted_domain, hosted_lid_domain, jid_encode}

-- A reader returns its value and the bytes behind it.
abbrev pub Read : Type 0 → Type 0
Read A = Bytes → Result (A × Bytes)

unfoldable pub read_byte : Read ℕ
read_byte [] = err (value_error "end of stream")
read_byte (b ∷ s) = ok (b, s)

unfoldable pub read_bytes : ℕ → Read Bytes
read_bytes n s =
    if ltb (length s) n then err (value_error "end of stream") else ok (take n s, drop n s)

-- `n` bytes, most significant first, behind the value read so far; `n` bytes are there.
unfoldable pub int_loop : ℕ → ℕ → Bytes → ℕ × Bytes
int_loop zero acc s = (acc, s)
int_loop (suc n) acc [] = (acc, [])
int_loop (suc n) acc (b ∷ s) = int_loop n (acc * 256 + b) s

unfoldable pub read_int : ℕ → Read ℕ
unfolding int_loop
read_int n s = if ltb (length s) n then err (value_error "end of stream") else ok (int_loop n 0 s)

unfoldable pub read_int20 : Read ℕ
read_int20 (a ∷ b ∷ c ∷ s) = ok (a % 16 * 65536 + b * 256 + c, s)
read_int20 _ = err (value_error "end of stream")

unfoldable pub unpack_hex : ℕ → Result ℕ
unpack_hex value =
    if ltb value 10
    then ok (48 + value)
    else if ltb value 16
    then ok (65 + value - 10)
    else err (value_error "invalid hex")

unfoldable pub unpack_nibble : ℕ → Result ℕ
unpack_nibble value =
    if leb value 9
    then ok (48 + value)
    else if value == 10
    then ok b'-'
    else if value == 11
    then ok b'.'
    else if value == 15
    then ok 0
    else err (value_error "invalid nibble")

unfoldable pub unpack_byte : ℕ → ℕ → Result ℕ
unpack_byte tag value =
    if tag == Tag.nibble_8
    then unpack_nibble value
    else if tag == Tag.hex_8
    then unpack_hex value
    else err (value_error "unknown tag")

-- The loop of `read_packed8`: two characters from each of `n` bytes.
unfoldable pub unpack_pairs : (ℕ → Result ℕ) → ℕ → Read Text
unpack_pairs unpack zero s = ok ([], s)
unpack_pairs unpack (suc n) s = do
  (cur, s1) ← read_byte s
  high ← unpack (cur / 16 % 16)
  low ← unpack (cur % 16)
  (rest, s2) ← unpack_pairs unpack n s1
  ok (high ∷ low ∷ rest, s2)

unfoldable pub read_packed8 : ℕ → Read Text
read_packed8 tag s = do
  (start, s1) ← read_byte s
  (value, s2) ← unpack_pairs (unpack_byte tag) (start % 128) s1
  ok ((if start / 128 == 0 then value else take (length value - 1) value), s2)

unfoldable pub get_token_double : Tables → ℕ → ℕ → Result Text
get_token_double t index1 index2 = elim (get_elem? t.double_tokens index1) [
  | none ↦ err (value_error "Invalid double token dict")
  | some dictionary ↦ elim (get_elem? dictionary index2) [
    | none ↦ err (value_error "Invalid double token")
    | some token ↦ ok token
  ]
]

-- The readers of addresses, with `read` for `read_string(read_byte())`.
joined : Text → Text → Bytes → Result (Text × Bytes)
joined first [] s = err (value_error "invalid jid pair")
joined first (c ∷ second) s = ok (first ++ (b'@' ∷ c ∷ second), s)

unfoldable pub read_jid_pair : Read Text → Read Text
unfolding joined
read_jid_pair read s = do (first, s1) ← read s; (second, s2) ← read s1; joined first second s2

unfoldable pub ad_server : ℕ → Text
ad_server domain =
    if domain == lid_domain
    then ascii "lid"
    else if domain == hosted_domain
    then ascii "hosted"
    else if domain == hosted_lid_domain
    then ascii "hosted.lid"
    else ascii "s.whatsapp.net"

unfoldable pub read_ad_jid : Read Text → Read Text
read_ad_jid read s = do
  (domain, s1) ← read_byte s
  (device, s2) ← read_byte s1
  (user, s3) ← read s2
  ok (jid_encode user (ad_server domain) (some (pos device)) none, s3)

unfoldable pub read_fb_jid : Read Text → Read Text
read_fb_jid read s = do
  (user, s1) ← read s
  (device, s2) ← read_int 2 s1
  (server, s3) ← read s2
  ok (user ++ (b':' ∷ (str_int (pos device) ++ (b'@' ∷ server))), s3)

-- A server that cannot be read is "interop", and the index goes back.
server_or_interop : Bytes → Result (Text × Bytes) → Text × Bytes
server_or_interop before (ok r) = r
server_or_interop before (err e) = (ascii "interop", before)

unfoldable pub read_interop_jid : Read Text → Read Text
unfolding server_or_interop
read_interop_jid read s = do
  (user, s1) ← read s
  (device, s2) ← read_int 2 s1
  (integrator, s3) ← read_int 2 s2
  let (server, s4) = server_or_interop s3 (read s3)
  ok (
    str_int (pos integrator)
        ++ (b'-' ∷ (user ++ (b':' ∷ (str_int (pos device) ++ (b'@' ∷ server))))),
    s4,
  )

read_utf8 : Read ℕ → Read Text
read_utf8 size s = do
  (n, s1) ← size s
  (raw, s2) ← read_bytes n s1
  value ← decode_utf8 raw
  ok (value, s2)

-- The tags above the dictionaries.
unfoldable pub read_tagged : Read Text → ℕ → Read Text
unfolding read_utf8
read_tagged read tag s =
    if tag == Tag.list_empty
    then ok ([], s)
    else if tag == Tag.binary_8
    then read_utf8 read_byte s
    else if tag == Tag.binary_20
    then read_utf8 read_int20 s
    else if tag == Tag.binary_32
    then read_utf8 (read_int 4) s
    else if tag == Tag.jid_pair
    then read_jid_pair read s
    else if tag == Tag.fb_jid
    then read_fb_jid read s
    else if tag == Tag.interop_jid
    then read_interop_jid read s
    else if tag == Tag.ad_jid
    then read_ad_jid read s
    else if tag == Tag.hex_8 || tag == Tag.nibble_8
    then read_packed8 tag s
    else err (value_error "invalid string with tag")

-- `read_string(tag)`: a single-byte token, a token of a dictionary, or another form.
unfoldable pub read_step : Tables → Read Text → ℕ → Read Text
read_step t read tag s =
    if leb 1 tag && ltb tag (length t.single_tokens)
    then elim (get_elem? t.single_tokens tag) [
      | none ↦ err index_error
      | some token ↦ ok (token, s)
    ]
    else if leb Tag.dictionary_0 tag && ltb tag (Tag.dictionary_0 + 4)
    then (do
      (index, s1) ← read_byte s
      token ← get_token_double t (tag - Tag.dictionary_0) index
      ok (token, s1))
    else read_tagged read tag s

unfoldable pub read_string : Tables → ℕ → ℕ → Read Text
read_string t zero tag s = err recursion_error
read_string t (suc fuel) tag s =
    read_step t (λ r. read_byte r >>= λ b. read_string t fuel b.0 b.1) tag s

-- An address takes a byte for each text in it, so a round for each byte and one more are enough.
unfoldable pub read_text : Tables → ℕ → Read Text
read_text t tag s = read_string t (suc (length s)) tag s

-- `read_string(read_byte())`
unfoldable pub read_next : Tables → Read Text
read_next t s = do (tag, s1) ← read_byte s; read_text t tag s1

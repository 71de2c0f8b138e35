-- ===== src/Wabinary/RoundTrip/TextTrip/Forms.antt =====
-- One step of the reader at the tag of each form.
use wassupweb.Prelude.{
  ℕ, suc, ◌+◌, ◌-◌, ◌/◌, ◌%◌, ◌≤◌, ◌≡◌, refl, ap, ◌∙◌, ◌⊎◌, inl, inr, Bool, true, false, ◌&&◌, some,
  List, [], ◌∷◌, ◌++◌, arith, ltb, leb, ◌==◌, if◌then◌else◌, Bool-cases, Bytes, length, get_elem?,
  take, Result, ◌>>=◌, ok,
}
use wassupweb.Text.{Text, is_utf8, decode_utf8}
use wassupweb.Wabinary.Tag
use wassupweb.Wabinary.Node.{Token, single, double, Tables}
use wassupweb.Wabinary.Encode.Write.{
  write_token, write_packed_bytes, pack_nibble, pack_hex, every, packs, is_nibble, is_hex,
  nibble_char, hex_char,
}
use wassupweb.Wabinary.Decode.Reader.{
  Read, read_byte, unpack_byte, unpack_nibble, unpack_hex, unpack_pairs, read_packed8,
  get_token_double, read_tagged, read_step, read_string,
}
use wassupweb.Wabinary.RoundTrip.Packed.{
  Packs, nibble-Packs, hex-Packs, padded, pack_pairs_trip, padded_even, padded_odd,
}
use wassupweb.Wabinary.RoundTrip.Sizes.{
  SizeForm, in_byte, in_20_bits, in_32_bits, read_bytes-append, read_int20-back, read_int4-back,
}
use wassupweb.Wabinary.RoundTrip.Canonical.{IsTable}

-- `read_string(read_byte())` on fuel.
unfoldable pub read_from : Tables → ℕ → Read Text
read_from t fuel r = read_byte r >>= λ b. read_string t fuel b.0 b.1

pub read_from_step :
    (t : Tables) (fuel b : ℕ) (s : Bytes)
    → read_from t (suc fuel) (b ∷ s) ≡ read_step t (read_from t fuel) b s
unfolding read_from read_string read_byte
read_from_step t fuel b s = refl

module _ (t : Tables) (table : IsTable t) (read : Read Text) where
  -- A tag above the dictionaries, or 0, is no token.
  pub step_tagged :
      (tag : ℕ) (s : Bytes)
      → (tag ≡ 0) ⊎ (240 ≤ tag)
      → read_step t read tag s ≡ read_tagged read tag s
  unfolding read_step
  step_tagged tag s (inl zero_tag) = rw zero_tag
  step_tagged tag s (inr high) =
      let out : (leb 1 tag && ltb tag (length t.single_tokens)) ≡ false =
        ground (arith, table.small) in
      let above : (leb 236 tag && ltb tag 240) ≡ false = ground arith in rw (out, above)

  double_lem :
      (d i : ℕ) (dictionary : List Text) (v : Text)
      → get_elem? t.double_tokens d ≡ some dictionary
      → get_elem? dictionary i ≡ some v
      → get_token_double t d i ≡ ok v
  unfolding get_token_double
  double_lem d i dictionary v outer inner = rw (outer, get_token_double) (rw inner)

  pub step_token :
      (c : ℕ) (v : Text) (k : Token) (s : Bytes)
      → t.token_map (c ∷ v) ≡ some k
      → (read_byte (write_token k ++ s) >>= λ b. read_step t read b.0 b.1) ≡ ok (c ∷ v, s)
  unfolding read_step write_token read_byte
  step_token c v (single i) s e =
      let (lo, hi, found) = table.single_found c v i e in
      let same : i % 256 ≡ i = omega (arith, table.small) in
      let inside : (leb 1 i && ltb i (length t.single_tokens)) ≡ true = ground arith in
      rw same (rw (inside, found))
  step_token c v (double d i) s e =
      let (dictionary, hd, hi, outer, inner) = table.double_found c v d i e in
      let same : i % 256 ≡ i = omega arith in
      let tag : (236 + d) % 256 ≡ 236 + d = omega arith in
      let index : 236 + d - 236 ≡ d = omega arith in
      let out : (leb 1 (236 + d) && ltb (236 + d) (length t.single_tokens)) ≡ false =
        ground (arith, table.small) in
      let here : (leb 236 (236 + d) && ltb (236 + d) 240) ≡ true = ground arith in
      rw (same, tag) (rw (out, here, index) (rw (double_lem d i dictionary (c ∷ v) outer inner)))

  pub step_raw :
      (v size s : Bytes)
      → SizeForm (length v) size
      → is_utf8 v ≡ true
      → (read_byte ((size ++ v) ++ s) >>= λ b. read_step t read b.0 b.1) ≡ ok (v, s)
  unfolding read_byte read_tagged decode_utf8
  step_raw v size s (in_byte h) utf8 =
      step_tagged 252 _ (inr (omega arith)) ∙ rw (read_bytes-append v s, utf8)
  step_raw v size s (in_20_bits lo h) utf8 =
      step_tagged 253 _ (inr (omega arith))
      ∙ rw (read_int20-back (length v) (v ++ s) h, read_bytes-append v s, utf8)
  step_raw v size s (in_32_bits lo h) utf8 =
      step_tagged 254 _ (inr (omega arith))
      ∙ rw (read_int4-back (length v) (v ++ s) h, read_bytes-append v s, utf8)

  pub step_empty :
      (s : Bytes) → (read_byte (252 ∷ 0 ∷ s) >>= λ b. read_step t read b.0 b.1) ≡ ok ([], s)
  step_empty s = step_raw [] (252 ∷ 0 ∷ []) s (in_byte (omega arith)) (unfold is_utf8 in refl)

packs_parts : (f : ℕ → Bool) (v : Text) → packs f v ≡ true → (every f v ≡ true) × (length v ≤ 127)
unfolding packs
packs_parts f v h = go (ltb 0 (length v)) (leb (length v) 127) (every f v) h refl
  where
    go :
        (a b c : Bool)
        → (a && b && c) ≡ true
        → leb (length v) 127 ≡ b
        → (c ≡ true) × (length v ≤ 127)
    go a b c h e = ground arith

-- `read_packed8` on its first byte `rounded`.
read_packed8_lem :
    (tag rounded n : ℕ) (cut : Bool) (value : Text) (s s' : Bytes)
    → rounded % 128 ≡ n
    → (rounded / 128 == 0) ≡ cut
    → unpack_pairs (unpack_byte tag) n s ≡ ok (value, s')
    → read_packed8 tag (rounded ∷ s)
      ≡ ok ((if cut then value else take (length value - 1) value), s')
unfolding read_packed8 read_byte
read_packed8_lem tag rounded n cut value s s' e1 e2 e3 = rw (e1, e2, e3)

-- A packed text under its tag.
packed_trip :
    (tag : ℕ) (f : ℕ → Bool) (pack unpack : ℕ → Result ℕ) (x : ℕ) (v : Text)
    → ((c : ℕ) → f c ≡ true → Packs pack unpack c)
    → pack 0 ≡ ok 15
    → unpack 15 ≡ ok x
    → unpack_byte tag ≡ unpack
    → packs f v ≡ true
    → (rounded : ℕ) × (pairs : Bytes) × (write_packed_bytes tag pack v ≡ ok (tag ∷ rounded ∷ pairs))
      × ((s : Bytes) → read_packed8 tag (rounded ∷ (pairs ++ s)) ≡ ok (v, s))
unfolding write_packed_bytes
packed_trip tag f pack unpack x v char pad unpad same h =
    let (all, short) = packs_parts f v h in
    let (pairs, wrote, size, back) = pack_pairs_trip pack unpack f x char pad unpad v all in
    let fits : ltb 127 (length v) ≡ false = ground arith in
    elim (Bool-cases (length v % 2 == 0)) [
      | inl even ↦ (
        (length v + 1) / 2,
        pairs,
        rw (fits, even, wrote),
        λ s.
            read_packed8_lem tag _ (length pairs) true (padded x v) (pairs ++ s) s
              (omega (arith, size)) (small size short) (rw same (back s))
            ∙ ap (λ (t : Text). ok (t, s)) (padded_even x v (parity even)),
      )
      | inr odd ↦ (
        (length v + 1) / 2 + 128,
        pairs,
        rw (fits, odd, wrote),
        λ s.
            read_packed8_lem tag _ (length pairs) false (padded x v) (pairs ++ s) s
              (omega (arith, size)) (big short) (rw same (back s))
            ∙ ap (λ (t : Text). ok (t, s)) (padded_odd x v (parity_odd odd)),
      )
    ]
  where
    parity : (length v % 2 == 0) ≡ true → length v % 2 ≡ 0
    parity e = ground arith

    parity_odd : (length v % 2 == 0) ≡ false → length v % 2 ≡ 1
    parity_odd e = ground arith

    small :
        {n : ℕ} → n ≡ (length v + 1) / 2 → length v ≤ 127 → ((length v + 1) / 2 / 128 == 0) ≡ true
    small e short = ground arith

    big : length v ≤ 127 → (((length v + 1) / 2 + 128) / 128 == 0) ≡ false
    big short = ground arith

pub nibble_trip :
    (v : Text)
    → is_nibble v ≡ true
    → (rounded : ℕ) × (pairs : Bytes) × (write_packed_bytes Tag.nibble_8 pack_nibble v
        ≡ ok (Tag.nibble_8 ∷ rounded ∷ pairs))
      × ((s : Bytes) → read_packed8 Tag.nibble_8 (rounded ∷ (pairs ++ s)) ≡ ok (v, s))
unfolding is_nibble
nibble_trip v h =
    packed_trip Tag.nibble_8 nibble_char pack_nibble unpack_nibble 0 v nibble-Packs
      (unfold pack_nibble in refl) (unfold unpack_nibble in refl) (unfold unpack_byte in refl) h

pub hex_trip :
    (v : Text)
    → is_hex v ≡ true
    → (rounded : ℕ) × (pairs : Bytes) × (write_packed_bytes Tag.hex_8 pack_hex v
        ≡ ok (Tag.hex_8 ∷ rounded ∷ pairs))
      × ((s : Bytes) → read_packed8 Tag.hex_8 (rounded ∷ (pairs ++ s)) ≡ ok (v, s))
unfolding is_hex
hex_trip v h =
    packed_trip Tag.hex_8 hex_char pack_hex unpack_hex 70 v hex-Packs (unfold pack_hex in refl)
      (unfold unpack_hex in refl) (unfold unpack_byte in refl) h

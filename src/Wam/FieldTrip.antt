-- ===== src/Wam/FieldTrip.antt =====
-- One record is read as it was written.
use mathlib.Core.List.{append_assoc}
use native.Mathlib.Nat.{mod-eq_of_lt}
use wassupweb.Prelude.{
  ℕ, zero, suc, ◌-◌, ◌*◌, ◌%◌, ◌≤◌, ◌<◌, bit_or, ◌≡◌, refl, sym, ap, ◌∙◌, inl, inr, true, false,
  none, [], ◌∷◌, ◌++◌, arith, ltb, ◌==◌, ltb→lt, ==_iff, Bool-cases, Bytes, length, ok, err,
  value_error, struct_error, >>=-eq-ok, ok-injective,
}
use wassupweb.Text.{Text}
use wassupweb.Text.Number.{ℤ, pos, negsuc}
use wassupweb.Wam.{nothing, Doubles, Value, int, double, text}
use wassupweb.Wam.Serialize.{
  serialize_header, serialize_int, serialize_data, bit_of, unsigned, within, serialize_header,
  with_header, u16_bytes, u32_bytes, serialize_text, serialize_double,
}
use wassupweb.Wam.Reader.{
  read_header, seen_of, signed_of, read_u16, read_u32, read_sized, read_signed, read_value,
  read_field,
}
use wassupweb.Wam.Header.{header_back}
use wassupweb.Wabinary.Decode.Reader.{Read, read_byte, read_bytes}
use wassupweb.Wabinary.RoundTrip.Sizes.{read_bytes-append}

module _ {F : Type 0} (unpack_double : Bytes → F) where
  -- A record, by its value's bytes.
  field_back :
      (key flag t : ℕ) (value bytes s : Bytes) (v : Value F)
      → flag < 8
      → t < 16
      → with_header key flag t value ≡ ok bytes
      → read_value unpack_double t (value ++ s) ≡ ok (v, s)
      → read_field unpack_double (bytes ++ s) ≡ ok (record { flag = flag; key = key; value = v }, s)
  unfolding with_header read_field
  field_back key flag t value bytes s v hf ht h back =
      let (header, e, same) = >>=-eq-ok (serialize_header key (bit_or flag (t * 16))) _ h in
      rw (sym (ok-injective same), append_assoc header)
        (rw (header_back key flag t header (value ++ s) hf ht e, back))

signed_of-unsigned :
    (half : ℕ) (z : ℤ) → within half z ≡ true → signed_of (2 * half) (unsigned (2 * half) z) ≡ z
unfolding signed_of unsigned within
signed_of-unsigned half (pos n) h =
    let small : n < half = ground arith in
    let same : n % (2 * half) ≡ n = mod-eq_of_lt (omega arith) in
    let low : ltb (2 * n) (2 * half) ≡ true = ground arith in rw same (rw low)
signed_of-unsigned half (negsuc n) h =
    let small : n < half = ground arith in
    let same : n % (2 * half) ≡ n = mod-eq_of_lt (omega arith) in
    let high : ltb (2 * (2 * half - 1 - n)) (2 * half) ≡ false = ground arith in
    let back : 2 * half - 1 - (2 * half - 1 - n) ≡ n = omega arith in rw same (rw (high, back))

within_more : (a b : ℕ) (z : ℤ) → a ≤ b → within a z ≡ true → within b z ≡ true
unfolding within
within_more a b (pos n) le h = ground arith
within_more a b (negsuc n) le h = ground arith

unsigned-lt : (bound : ℕ) (z : ℤ) → 0 < bound → unsigned bound z < bound
unfolding unsigned
unsigned-lt bound (pos n) h = omega arith
unsigned-lt bound (negsuc n) h = omega arith

read_u16-back : (n : ℕ) (s : Bytes) → n < 65536 → read_u16 (u16_bytes n ++ s) ≡ ok (n, s)
unfolding read_u16 u16_bytes
read_u16-back n s h = ground arith

read_u32-back : (n : ℕ) (s : Bytes) → n < 4294967296 → read_u32 (u32_bytes n ++ s) ≡ ok (n, s)
unfolding read_u32 u32_bytes
read_u32-back n s h = ground arith

-- What the eight bytes of a `float` are read as.
pub record AreDoubles {F : Type 0} (d : Doubles F) (unpack_double : Bytes → F) : Type 0 where
  pub size : (x : F) → length (d.pack_double x) ≡ 8
  pub back : (x : F) → unpack_double (d.pack_double x) ≡ x

module _ {F : Type 0} (d : Doubles F) (unpack_double : Bytes → F)
    (laws : AreDoubles d unpack_double) (flag : ℕ) (small_flag : flag < 8) where
  -- The record of a value is read as the value.
  abbrev Reads : ℕ → Value F → Bytes → Type 0
  Reads key v bytes =
      (s : Bytes)
      → read_field unpack_double (bytes ++ s) ≡ ok (record { flag = flag; key = key; value = v }, s)

  eight : (x : F) (s : Bytes) → read_bytes 8 (d.pack_double x ++ s) ≡ ok (d.pack_double x, s)
  eight x s =
      ap (λ (n : ℕ). read_bytes n (d.pack_double x ++ s)) (sym (laws.size x))
      ∙ read_bytes-append (d.pack_double x) s

  double_back :
      (key : ℕ) (x : F) (bytes : Bytes)
      → serialize_double d key flag x ≡ ok bytes
      → Reads key (double x) bytes
  unfolding serialize_double read_value
  double_back key x bytes h s =
      field_back unpack_double key flag 7 (d.pack_double x) bytes s (double x) small_flag
        (omega arith) h (rw (eight x s, laws.back x))

  sized_back :
      (size : Read ℕ) (v r s : Bytes)
      → size r ≡ ok (length v, v ++ s)
      → read_sized unpack_double size r ≡ ok (text v, s)
  unfolding read_sized
  sized_back size v r s e = rw (e, read_bytes-append v s)

  signed_back :
      (number : Read ℕ) (half : ℕ) (z : ℤ) (r s : Bytes)
      → within half z ≡ true
      → number r ≡ ok (unsigned (2 * half) z, s)
      → read_signed unpack_double (2 * half) number r ≡ ok (int z, s)
  unfolding read_signed
  signed_back number half z r s h e = rw (e, signed_of-unsigned half z h)

  text_back :
      (key : ℕ) (v : Text) (bytes : Bytes)
      → serialize_text key flag v ≡ ok bytes
      → Reads key (text v) bytes
  unfolding serialize_text read_value read_sized read_byte
  text_back key v bytes h s = elim (Bool-cases (ltb (length v) 256)) [
    | inl short ↦
        field_back unpack_double key flag 8 (length v ∷ v) bytes s (text v) small_flag (omega arith)
          (rw short at h) (rw (read_bytes-append v s))
    | inr a ↦ elim (Bool-cases (ltb (length v) 65536)) [
      | inl middle ↦
          field_back unpack_double key flag 9 (u16_bytes (length v) ++ v) bytes s (text v)
            small_flag (omega arith) (rw (a, middle) at h)
            (ap (read_value unpack_double 9) (append_assoc (u16_bytes (length v)) v s)
              ∙ sized_back read_u16 v (u16_bytes (length v) ++ (v ++ s)) s
                  (read_u16-back (length v) (v ++ s) (ltb→lt _ _ middle)))
      | inr b ↦ elim (Bool-cases (ltb (length v) 4294967296)) [
        | inl long ↦
            field_back unpack_double key flag 10 (u32_bytes (length v) ++ v) bytes s (text v)
              small_flag (omega arith) (rw (a, b, long) at h)
              (ap (read_value unpack_double 10) (append_assoc (u32_bytes (length v)) v s)
                ∙ sized_back read_u32 v (u32_bytes (length v) ++ (v ++ s)) s
                    (read_u32-back (length v) (v ++ s) (ltb→lt _ _ long)))
        | inr c ↦ absurd (too_long (rw (a, b, c) at h))
      ]
    ]
  ]
    where
      too_long : err struct_error ≡ ok bytes → ⊥
      too_long e = cc

  as_double :
      (key : ℕ) (x : F) (bytes header : Bytes)
      → serialize_header key (bit_or flag (7 * 16)) ≡ ok header
      → ok (header ++ d.pack_double x) ≡ ok bytes
      → serialize_double d key flag x ≡ ok bytes
  unfolding serialize_double with_header
  as_double key x bytes header e h = rw e h

  -- Numbers that are neither 0 nor 1.
  wide_int :
      (key : ℕ) (z : ℤ) (bytes : Bytes)
      → bit_of z ≡ none
      → serialize_int d key flag z ≡ ok bytes
      → (v : Value F) × (seen_of d (int z) ≡ ok v) × Reads key v bytes
  unfolding serialize_int read_value seen_of read_byte
  wide_int key z bytes no_bit h = elim (Bool-cases (within 128 z)) [
    | inl byte ↦ (
      int z,
      rw (within_more 128 2147483648 z (omega arith) byte),
      λ s.
          field_back unpack_double key flag 3 (unsigned 256 z ∷ []) bytes s (int z) small_flag
            (omega arith) (rw (serialize_int, no_bit, byte) at h)
            (signed_back read_byte 128 z (unsigned 256 z ∷ s) s byte refl),
    )
    | inr a ↦ elim (Bool-cases (within 32768 z)) [
      | inl short ↦ (
        int z,
        rw (within_more 32768 2147483648 z (omega arith) short),
        λ s.
            field_back unpack_double key flag 4 (u16_bytes (unsigned 65536 z)) bytes s (int z)
              small_flag (omega arith) (rw (serialize_int, no_bit, a, short) at h)
              (signed_back read_u16 32768 z (u16_bytes (unsigned 65536 z) ++ s) s short
                (read_u16-back (unsigned 65536 z) s (unsigned-lt 65536 z (omega arith)))),
      )
      | inr b ↦ elim (Bool-cases (within 2147483648 z)) [
        | inl long ↦ (
          int z,
          rw long,
          λ s.
              field_back unpack_double key flag 5 (u32_bytes (unsigned 4294967296 z)) bytes s
                (int z) small_flag (omega arith) (rw (serialize_int, no_bit, a, b, long) at h)
                (signed_back read_u32 2147483648 z (u32_bytes (unsigned 4294967296 z) ++ s) s long (
                  read_u32-back (unsigned 4294967296 z) s
                    (unsigned-lt 4294967296 z (omega arith)))),
        )
        | inr c ↦
            let (header, e, h1) =
              >>=-eq-ok (serialize_header key (bit_or flag (7 * 16))) _
                (rw (serialize_int, no_bit, a, b, c) at h) in
            let (x, e', h2) = >>=-eq-ok (d.of_int z) _ h1 in
            (double x, rw (c, e'), double_back key x bytes (as_double key x bytes header e h2))
      ]
    ]
  ]

  int_back :
      (key : ℕ) (z : ℤ) (bytes : Bytes)
      → serialize_int d key flag z ≡ ok bytes
      → (v : Value F) × (seen_of d (int z) ≡ ok v) × Reads key v bytes
  unfolding serialize_int bit_of seen_of read_value
  int_back key (pos zero) bytes h = (
    int (pos 0),
    refl,
    λ s.
        field_back unpack_double key flag 1 [] bytes s (int (pos 0)) small_flag (omega arith) h
          refl,
  )
  int_back key (pos (suc zero)) bytes h = (
    int (pos 1),
    refl,
    λ s.
        field_back unpack_double key flag 2 [] bytes s (int (pos 1)) small_flag (omega arith) h
          refl,
  )
  int_back key (pos (suc (suc n))) bytes h = wide_int key (pos (suc (suc n))) bytes refl h
  int_back key (negsuc n) bytes h = wide_int key (negsuc n) bytes refl h

  nothing_back :
      (key : ℕ) (bytes : Bytes)
      → serialize_data d key nothing flag ≡ ok bytes
      → Reads key nothing bytes
  unfolding serialize_data read_field read_value
  nothing_back key bytes h s = elim (Bool-cases (flag == 0)) [
    | inl e ↦
        let zero_flag : flag ≡ 0 = (==_iff flag 0).0 e in
        let header : read_header (bytes ++ s) ≡ ok ((flag, 0, key), s) =
          header_back key flag 0 bytes s small_flag (omega arith)
            (rw zero_flag (rw (e, zero_flag) at h)) in
        rw header
    | inr e ↦ absurd (missing (rw e at h))
  ]
    where
      missing : err (value_error "missing value for non-global WAM field") ≡ ok bytes → ⊥
      missing e = cc

  -- Whatever is serialized is read as the same flag and number, with the value, where a whole number of
  -- more than 32 bits is a `float`.
  pub serialize_data-back :
      (key : ℕ) (v : Value F) (bytes : Bytes)
      → serialize_data d key v flag ≡ ok bytes
      → (seen : Value F) × (seen_of d v ≡ ok seen) × Reads key seen bytes
  unfolding serialize_data seen_of
  serialize_data-back key nothing bytes h = (nothing, refl, nothing_back key bytes h)
  serialize_data-back key (int z) bytes h = int_back key z bytes h
  serialize_data-back key (double x) bytes h = (double x, refl, double_back key x bytes h)
  serialize_data-back key (text v) bytes h = (text v, refl, text_back key v bytes h)

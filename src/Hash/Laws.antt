-- ===== src/Hash/Laws.antt =====
-- What is added to the hash and taken out again leaves it as it was; the order does not matter.
use wassupweb.Prelude.{
  ℕ, zero, suc, ◌+◌, ◌-◌, ◌%◌, ◌≡◌, refl, sym, ap, ◌∙◌, inl, inr, List, [], ◌∷◌, ◌++◌, arith, ltb,
  ltb→lt, Bool-cases, ltb→le, IsByte, Bytes, All, All-append, length, take, replicate,
  length-append, length-take, length-replicate,
}
use wassupweb.Hash.{
  IsSha512, hash_size, sub_byte, add_byte, mix, base, expand_value, subtract_values, add_values,
  subtract_then_add,
}

pub length-mix : (f : ℕ → ℕ → ℕ) (state e : Bytes) → length (mix f state e) ≡ length state
unfolding mix
length-mix f [] e = refl
length-mix f (s ∷ state) [] = refl
length-mix f (s ∷ state) (x ∷ e) = ap suc (length-mix f state e)

pub mix-sub-add :
    (state e : Bytes)
    → All IsByte state
    → All IsByte e
    → mix sub_byte (mix add_byte state e) e ≡ state
unfolding mix sub_byte add_byte
mix-sub-add [] e hs he = refl
mix-sub-add (s ∷ state) [] hs he = refl
mix-sub-add (s ∷ state) (x ∷ e) (hb, hs) (hx, he) =
    let back : ((s + x) % 256 + 256 - x) % 256 ≡ s = omega arith in
    rw (back, mix-sub-add state e hs he) refl

pub mix-add-add :
    (state e f : Bytes)
    → mix add_byte (mix add_byte state e) f ≡ mix add_byte (mix add_byte state f) e
unfolding mix add_byte
mix-add-add [] e f = refl
mix-add-add (s ∷ state) [] [] = refl
mix-add-add (s ∷ state) [] (y ∷ f) = refl
mix-add-add (s ∷ state) (x ∷ e) [] = refl
mix-add-add (s ∷ state) (x ∷ e) (y ∷ f) =
    let swap : ((s + x) % 256 + y) % 256 ≡ ((s + y) % 256 + x) % 256 = omega arith in
    rw (swap, mix-add-add state e f) refl

pub mix-IsByte : (state e : Bytes) → All IsByte state → All IsByte (mix add_byte state e)
unfolding mix add_byte
mix-IsByte [] e h = tt
mix-IsByte (s ∷ state) [] h = h
mix-IsByte (s ∷ state) (x ∷ e) (hb, h) = (omega arith, mix-IsByte state e h)

module _ (sha512 : Bytes → Bytes) (d : IsSha512 sha512) where
  pub expand_value-IsByte : (v : Bytes) → All IsByte (expand_value sha512 v)
  unfolding expand_value
  expand_value-IsByte v =
      All-append IsByte (sha512 v) (sha512 (v ++ 1 ∷ [])) (d.in_range v) (d.in_range (v ++ 1 ∷ []))

  -- One value moves through the values that are added before it.
  pub add_values-mix :
      (values : List Bytes) (e state : Bytes)
      → add_values sha512 values (mix add_byte state e)
        ≡ mix add_byte (add_values sha512 values state) e
  unfolding add_values
  add_values-mix [] e state = refl
  add_values-mix (v ∷ values) e state =
      ap (λ s. add_values sha512 values s) (mix-add-add state e (expand_value sha512 v))
      ∙ add_values-mix values e (mix add_byte state (expand_value sha512 v))

  pub add_values-append :
      (first second : List Bytes) (state : Bytes)
      → add_values sha512 (first ++ second) state
        ≡ add_values sha512 second (add_values sha512 first state)
  unfolding add_values
  add_values-append [] second state = refl
  add_values-append (v ∷ first) second state =
      add_values-append first second (mix add_byte state (expand_value sha512 v))

  add_values-swap :
      (first second : List Bytes) (state : Bytes)
      → add_values sha512 second (add_values sha512 first state)
        ≡ add_values sha512 first (add_values sha512 second state)
  unfolding add_values
  add_values-swap [] second state = refl
  add_values-swap (v ∷ first) second state =
      let e = expand_value sha512 v in
      add_values-swap first second (mix add_byte state e)
      ∙ ap (λ s. add_values sha512 first s) (add_values-mix second e state)

  pub add_values-fields :
      (values : List Bytes) (state : Bytes)
      → All IsByte state
      → All IsByte (add_values sha512 values state)
        × (length (add_values sha512 values state) ≡ length state)
  unfolding add_values
  add_values-fields [] state h = (h, refl)
  add_values-fields (v ∷ values) state h =
      let e = expand_value sha512 v in
      let (bytes, size) = add_values-fields values (mix add_byte state e) (mix-IsByte state e h) in
      (bytes, size ∙ length-mix add_byte state e)

  subtract-add :
      (values : List Bytes) (state : Bytes)
      → All IsByte state
      → subtract_values sha512 values (add_values sha512 values state) ≡ state
  unfolding subtract_values add_values
  subtract-add [] state h = refl
  subtract-add (v ∷ values) state h =
      let e = expand_value sha512 v in
      ap (λ s. subtract_values sha512 values (mix sub_byte s e)) (add_values-mix values e state)
      ∙ ap (λ s. subtract_values sha512 values s)
          (mix-sub-add (add_values sha512 values state) e (add_values-fields values state h).0
            (expand_value-IsByte v))
      ∙ subtract-add values state h

  All-take : (n : ℕ) (s : Bytes) → All IsByte s → All IsByte (take n s)
  All-take zero s h = tt
  All-take (suc n) [] h = tt
  All-take (suc n) (b ∷ s) (hb, h) = (hb, All-take n s h)

  pub All-zeros : (n : ℕ) → All IsByte (replicate n 0)
  All-zeros zero = tt
  All-zeros (suc n) = (omega arith, All-zeros n)

  base-fields :
      (current : Bytes)
      → All IsByte current
      → All IsByte (base current) × (length (base current) ≡ 128)
  unfolding base
  base-fields current h = elim (Bool-cases (ltb (length current) hash_size)) [
    | inl short ↦
        let missing = hash_size - length current in
        (
          rw (base, short) (All-append IsByte current (replicate missing 0) h (All-zeros missing)),
          rw (base, short)
              (omega (
                arith,
                ltb→lt (length current) hash_size short,
                length-append current (replicate missing 0),
                length-replicate {A = ℕ} missing 0,
              )),
        )
    | inr long ↦ elim (Bool-cases (ltb hash_size (length current))) [
      | inl over ↦ (
        rw (base, long, over) (All-take hash_size current h),
        rw (base, long, over)
            (omega (arith, ltb→lt hash_size (length current) over, length-take hash_size current)),
      )
      | inr exact ↦ (
        rw (base, long, exact) h,
        rw (base, long, exact)
            (omega (
              arith,
              ltb→le (length current) hash_size long,
              ltb→le hash_size (length current) exact,
            )),
      )
    ]
  ]

  pub base-whole : (s : Bytes) → length s ≡ 128 → base s ≡ s
  unfolding base
  base-whole s h = rw h refl

  -- What is added to a hash of bytes and taken out in the next step leaves it as it was, cut or filled
  -- to 128 bytes. Digests are 64 bytes.
  pub subtract_then_add-undo :
      (current : Bytes) (values : List Bytes)
      → All IsByte current
      → subtract_then_add sha512 (subtract_then_add sha512 current [] values) values []
        ≡ base current
  unfolding subtract_then_add subtract_values add_values
  subtract_then_add-undo current values h =
      let (bytes, size) = base-fields current h in
      let (_, same) = add_values-fields values (base current) bytes in
      ap (λ s. subtract_values sha512 values s)
        (base-whole (add_values sha512 values (base current)) (same ∙ size))
      ∙ subtract-add values (base current) bytes

  -- The order in which two runs of values are added does not matter.
  pub subtract_then_add_comm :
      (current : Bytes) (subtract first second : List Bytes)
      → subtract_then_add sha512 current subtract (first ++ second)
        ≡ subtract_then_add sha512 current subtract (second ++ first)
  unfolding subtract_then_add
  subtract_then_add_comm current subtract first second =
      let state = subtract_values sha512 subtract (base current) in
      add_values-append first second state
      ∙ add_values-swap first second state
      ∙ sym (add_values-append second first state)

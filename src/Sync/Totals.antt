-- ===== src/Sync/Totals.antt =====
-- The hash of a map of MACs: what every value adds to the empty hash. Setting and removing an entry
-- takes the old value out of it and adds the new one.
use wassupweb.Prelude.{
  ℕ, ◌+◌, ◌-◌, ◌%◌, ◌≡◌, refl, sym, ap, ◌∙◌, inl, inr, none, some, List, [], ◌∷◌, ◌++◌, arith,
  Bool-cases, IsByte, Bytes, All, length, replicate, length-replicate,
}
use wassupweb.Text.{text_eq}
use wassupweb.Hash.{
  IsSha512, hash_size, sub_byte, add_byte, mix, expand_value, subtract_values, add_values,
}
use wassupweb.Hash.Laws.{
  mix-sub-add, mix-IsByte, expand_value-IsByte, add_values-mix, add_values-append,
  add_values-fields, All-zeros,
}
use wassupweb.Sync.{mac_of, put_mac, pop_mac}

unfoldable pub macs : List (Bytes × Bytes) → List Bytes
macs [] = []
macs ((k, v) ∷ items) = v ∷ macs items

abbrev pub zeros : Bytes
zeros = replicate hash_size 0

mix-add-sub :
    (state e : Bytes)
    → All IsByte state
    → All IsByte e
    → mix add_byte (mix sub_byte state e) e ≡ state
unfolding mix sub_byte add_byte
mix-add-sub [] e hs he = refl
mix-add-sub (s ∷ state) [] hs he = refl
mix-add-sub (s ∷ state) (x ∷ e) (hb, hs) (hx, he) =
    let back : ((s + 256 - x) % 256 + x) % 256 ≡ s = omega arith in
    rw (back, mix-add-sub state e hs he) refl

mix-sub_comm :
    (state e f : Bytes)
    → All IsByte e
    → mix sub_byte (mix add_byte state f) e ≡ mix add_byte (mix sub_byte state e) f
unfolding mix sub_byte add_byte
mix-sub_comm [] e f he = refl
mix-sub_comm (s ∷ state) [] [] he = refl
mix-sub_comm (s ∷ state) [] (y ∷ f) he = refl
mix-sub_comm (s ∷ state) (x ∷ e) [] he = refl
mix-sub_comm (s ∷ state) (x ∷ e) (y ∷ f) (hx, he) =
    let swap : ((s + y) % 256 + 256 - x) % 256 ≡ ((s + 256 - x) % 256 + y) % 256 = omega arith in
    rw (swap, mix-sub_comm state e f he) refl

module _ (sha512 : Bytes → Bytes) where
  -- The hash that a map stands for.
  unfoldable pub total : List (Bytes × Bytes) → Bytes
  unfolding add_values macs
  total items = add_values sha512 (macs items) zeros

  unfoldable pub added : Bytes → Bytes → Bytes
  added v state = mix add_byte state (expand_value sha512 v)

  unfoldable pub removed : Bytes → Bytes → Bytes
  removed v state = mix sub_byte state (expand_value sha512 v)

module _ (sha512 : Bytes → Bytes) (d : IsSha512 sha512) where
  subtract_values-append :
      (first second : List Bytes) (state : Bytes)
      → subtract_values sha512 (first ++ second) state
        ≡ subtract_values sha512 second (subtract_values sha512 first state)
  unfolding subtract_values
  subtract_values-append [] second state = refl
  subtract_values-append (v ∷ first) second state =
      subtract_values-append first second (mix sub_byte state (expand_value sha512 v))

  add_values-removed :
      (values : List Bytes) (v state : Bytes)
      → add_values sha512 values (removed sha512 v state)
        ≡ removed sha512 v (add_values sha512 values state)
  unfolding add_values removed
  add_values-removed [] v state = refl
  add_values-removed (w ∷ values) v state =
      ap (λ s. add_values sha512 values s)
        (sym (
          mix-sub_comm state (expand_value sha512 v) (expand_value sha512 w)
            (expand_value-IsByte sha512 d v)))
      ∙ add_values-removed values v (mix add_byte state (expand_value sha512 w))

  -- A value behind the others is added last.
  pub add-last :
      (values : List Bytes) (w state : Bytes)
      → add_values sha512 (values ++ w ∷ []) state ≡ added sha512 w (add_values sha512 values state)
  unfolding add_values added
  add-last values w state = add_values-append sha512 d values (w ∷ []) state

  pub subtract-last :
      (values subtracted : List Bytes) (v state : Bytes)
      → add_values sha512 values (subtract_values sha512 (subtracted ++ v ∷ []) state)
        ≡ removed sha512 v (add_values sha512 values (subtract_values sha512 subtracted state))
  unfolding subtract_values removed
  subtract-last values subtracted v state =
      ap (λ s. add_values sha512 values s) (subtract_values-append subtracted (v ∷ []) state)
      ∙ add_values-removed values v (subtract_values sha512 subtracted state)

  removed-added :
      (v state : Bytes) → All IsByte state → removed sha512 v (added sha512 v state) ≡ state
  unfolding removed added
  removed-added v state h =
      mix-sub-add state (expand_value sha512 v) h (expand_value-IsByte sha512 d v)

  -- Taking out the first value leaves the others.
  first-removed :
      (values : List Bytes) (v state : Bytes)
      → All IsByte state
      → removed sha512 v (add_values sha512 values (added sha512 v state))
        ≡ add_values sha512 values state
  unfolding added
  first-removed values v state h =
      ap (removed sha512 v) (add_values-mix sha512 d values (expand_value sha512 v) state)
      ∙ removed-added v (add_values sha512 values state)
          (add_values-fields sha512 d values state h).0

  put-new :
      (key w : Bytes) (items : List (Bytes × Bytes)) (state : Bytes)
      → mac_of key items ≡ none
      → add_values sha512 (macs (put_mac key w items)) state
        ≡ added sha512 w (add_values sha512 (macs items) state)
  unfolding mac_of put_mac macs add_values added
  put-new key w [] state h = refl
  put-new key w ((k, v) ∷ items) state h = elim (Bool-cases (text_eq k key)) [
    | inl same ↦ absurd (ground (arith))
    | inr other ↦
        let missing : mac_of key items ≡ none = ground (arith) in
        rw other (put-new key w items (mix add_byte state (expand_value sha512 v)) missing)
  ]

  put-known :
      (key w prev : Bytes) (items : List (Bytes × Bytes)) (state : Bytes)
      → All IsByte state
      → mac_of key items ≡ some prev
      → add_values sha512 (macs (put_mac key w items)) state
        ≡ added sha512 w (removed sha512 prev (add_values sha512 (macs items) state))
  unfolding mac_of put_mac macs add_values added removed
  put-known key w prev [] state hs h = cc
  put-known key w prev ((k, v) ∷ items) state hs h = elim (Bool-cases (text_eq k key)) [
    | inl same ↦
        let it : v ≡ prev = ground (arith) in
        rw (same, sym it)
          (add_values-mix sha512 d (macs items) (expand_value sha512 w) state
            ∙ ap (added sha512 w) (sym (first-removed (macs items) v state hs)))
    | inr other ↦
        let known : mac_of key items ≡ some prev = ground (arith) in
        rw other (
          put-known key w prev items (mix add_byte state (expand_value sha512 v))
            (mix-IsByte state (expand_value sha512 v) hs) known)
  ]

  pop-known :
      (key prev : Bytes) (items : List (Bytes × Bytes)) (state : Bytes)
      → All IsByte state
      → mac_of key items ≡ some prev
      → add_values sha512 (macs (pop_mac key items)) state
        ≡ removed sha512 prev (add_values sha512 (macs items) state)
  unfolding mac_of pop_mac macs add_values removed added
  pop-known key prev [] state hs h = cc
  pop-known key prev ((k, v) ∷ items) state hs h = elim (Bool-cases (text_eq k key)) [
    | inl same ↦
        let it : v ≡ prev = ground (arith) in
        rw (same, sym it) (sym (first-removed (macs items) v state hs))
    | inr other ↦
        let known : mac_of key items ≡ some prev = ground (arith) in
        rw other (
          pop-known key prev items (mix add_byte state (expand_value sha512 v))
            (mix-IsByte state (expand_value sha512 v) hs) known)
  ]

  pub total-put_new :
      (key w : Bytes) (items : List (Bytes × Bytes))
      → mac_of key items ≡ none
      → total sha512 (put_mac key w items) ≡ added sha512 w (total sha512 items)
  unfolding total
  total-put_new key w items h = put-new key w items zeros h

  pub total-put_known :
      (key w prev : Bytes) (items : List (Bytes × Bytes))
      → mac_of key items ≡ some prev
      → total sha512 (put_mac key w items)
        ≡ added sha512 w (removed sha512 prev (total sha512 items))
  unfolding total
  total-put_known key w prev items h =
      put-known key w prev items zeros (All-zeros sha512 d hash_size) h

  pub total-pop :
      (key prev : Bytes) (items : List (Bytes × Bytes))
      → mac_of key items ≡ some prev
      → total sha512 (pop_mac key items) ≡ removed sha512 prev (total sha512 items)
  unfolding total
  total-pop key prev items h = pop-known key prev items zeros (All-zeros sha512 d hash_size) h

  pub length-total : (items : List (Bytes × Bytes)) → length (total sha512 items) ≡ 128
  unfolding total
  length-total items =
      (add_values-fields sha512 d (macs items) zeros (All-zeros sha512 d hash_size)).1
      ∙ length-replicate {A = ℕ} hash_size 0

-- ===== src/Sync/Sealed.antt =====
-- In every state that the decoders and `encode_syncd_patch` lead to, the hash is that of the map.
use wassupweb.Prelude.{
  ℕ, ◌≡◌, refl, sym, ap, ◌∙◌, inl, inr, Option, none, some, [], ◌∷◌, ◌++◌, arith, ◌==◌, Bool-cases,
  Option-cases, Bytes, length, ok, ok-injective,
}
use wassupweb.Hash.{IsSha512, add_values, subtract_values, subtract_then_add}
use wassupweb.Hash.Laws.{base-whole}
use wassupweb.Sync.{
  LtHashState, Generator, new_lthash_state, mac_of, make_lt_hash_generator, hash_or_zeros, mix_mac,
  set_value, take_out, finish, op_remove, pop_mac,
}
use wassupweb.Sync.Totals.{
  total, added, removed, add-last, subtract-last, total-put_new, total-put_known, total-pop,
  length-total,
}

module _ (sha512 : Bytes → Bytes) where
  -- The hash is the one that the map stands for.
  unfoldable pub IsSealed : LtHashState → Type 0
  unfolding total
  IsSealed s = s.hash ≡ total sha512 s.index_value_map

  -- What a generator would make of its values is the hash of its map.
  unfoldable pub IsBalanced : Generator → Type 0
  IsBalanced g =
      (length g.current_hash ≡ 128)
      × (add_values sha512 g.add_values (subtract_values sha512 g.sub_values g.current_hash)
          ≡ total sha512 g.index_value_map)

module _ (sha512 : Bytes → Bytes) (d : IsSha512 sha512) where
  pub new_lthash_state-IsSealed :
      (version : ℕ) → IsSealed sha512 (record new_lthash_state { version = version })
  unfolding IsSealed total
  new_lthash_state-IsSealed version = refl

  pub make_lt_hash_generator-IsBalanced :
      (s : LtHashState) → IsSealed sha512 s → IsBalanced sha512 (make_lt_hash_generator s)
  unfolding IsSealed IsBalanced make_lt_hash_generator hash_or_zeros subtract_values
  make_lt_hash_generator-IsBalanced s h =
      let size = ap length h ∙ length-total sha512 d s.index_value_map in
      let same = full s.hash size in (ap length same ∙ size, same ∙ h)
    where
      full : (hash : Bytes) → length hash ≡ 128 → hash_or_zeros hash ≡ hash
      full [] size = absurd (omega arith)
      full (b ∷ hash) size = refl

  pub finish-IsSealed :
      (version : ℕ) (g : Generator)
      → IsBalanced sha512 g
      → IsSealed sha512 (finish sha512 version g)
  unfolding IsSealed IsBalanced finish subtract_then_add
  finish-IsSealed version g (size, h) =
      ap (λ s. add_values sha512 g.add_values (subtract_values sha512 g.sub_values s))
        (base-whole sha512 d g.current_hash size)
      ∙ h

  set_value-IsBalanced :
      (index_mac value_mac : Bytes) (g : Generator) (prev : Option Bytes)
      → mac_of index_mac g.index_value_map ≡ prev
      → IsBalanced sha512 g
      → IsBalanced sha512 (take_out prev (set_value index_mac value_mac g))
  unfolding IsBalanced take_out set_value
  set_value-IsBalanced index_mac value_mac g none e (size, h) = (
    size,
    add-last sha512 d g.add_values value_mac (subtract_values sha512 g.sub_values g.current_hash)
        ∙ ap (added sha512 value_mac) h
        ∙ sym (total-put_new sha512 d index_mac value_mac g.index_value_map e),
  )
  set_value-IsBalanced index_mac value_mac g (some prev) e (size, h) = (
    size,
    add-last sha512 d g.add_values value_mac
          (subtract_values sha512 (g.sub_values ++ prev ∷ []) g.current_hash)
        ∙ ap (added sha512 value_mac) (
            subtract-last sha512 d g.add_values g.sub_values prev g.current_hash
            ∙ ap (removed sha512 prev) h)
        ∙ sym (total-put_known sha512 d index_mac value_mac prev g.index_value_map e),
  )

  pop_mac-IsBalanced :
      (index_mac prev : Bytes) (g : Generator)
      → mac_of index_mac g.index_value_map ≡ some prev
      → IsBalanced sha512 g
      → IsBalanced sha512 (
          take_out (some prev) (record g { index_value_map = pop_mac index_mac g.index_value_map }))
  unfolding IsBalanced take_out
  pop_mac-IsBalanced index_mac prev g e (size, h) = (
    size,
    subtract-last sha512 d g.add_values g.sub_values prev g.current_hash
        ∙ ap (removed sha512 prev) h
        ∙ sym (total-pop sha512 d index_mac prev g.index_value_map e),
  )

  pub from_ok : (g g' : Generator) → ok g ≡ ok g' → IsBalanced sha512 g → IsBalanced sha512 g'
  from_ok g g' e b = rw (sym (ok-injective e)) b

  pub mix_mac-IsBalanced :
      (index_mac value_mac : Bytes) (operation : ℕ) (g g' : Generator)
      → mix_mac index_mac value_mac operation g ≡ ok g'
      → IsBalanced sha512 g
      → IsBalanced sha512 g'
  unfolding mix_mac
  mix_mac-IsBalanced index_mac value_mac operation g g' e b =
      elim (Bool-cases (operation == op_remove)) [
        | inl remove ↦ elim (Option-cases (mac_of index_mac g.index_value_map)) [
          | inl gone ↦ absurd (cc)
          | inr (prev, found) ↦
              let made = pop_mac-IsBalanced index_mac prev g found b in from_ok _ g' (cc) made
        ]
        | inr set ↦
            let made =
              set_value-IsBalanced index_mac value_mac g (mac_of index_mac g.index_value_map) refl
                b in
            from_ok _ g' (cc) made
      ]

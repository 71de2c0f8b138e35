-- ===== src/Keys/Deletion.antt =====
-- Only keys that are there are deleted.
use wassupweb.Prelude.{
  ◌≡◌, refl, ap, ◌∙◌, inl, inr, Bool, true, false, Option, none, some, List, [], ◌∷◌, Bool-cases,
  Option-cases,
}
use wassupweb.Text.{Text, text_eq, text_eq_iff}
use wassupweb.Locks.{update}
use wassupweb.Keys.{
  validate_deletions, deletions, updates, Transaction, is_present, delete, process_deletions,
}

module _ {V : Type 0} where
  -- Of the ids, those that the store has.
  unfoldable pub those_held : (Text → Option V) → List Text → List Text
  those_held existing [] = []
  those_held existing (id ∷ ids) =
      let rest = those_held existing ids in
      elim (existing id) [ none ↦ rest | some value ↦ id ∷ rest ]

  -- After `validate_deletions` the data asks for the same updates, and for the deletion of exactly
  -- those keys, of the ones that it asked to delete, that the store has, in the same order.
  pub validate_deletions-existing :
      (existing : Text → Option V) (key_data : List (Text × Option V))
      → (updates (validate_deletions existing key_data) ≡ updates key_data)
        × (deletions (validate_deletions existing key_data)
            ≡ those_held existing (deletions key_data))
  unfolding validate_deletions updates deletions those_held
  validate_deletions-existing existing [] = (refl, refl)
  validate_deletions-existing existing ((id, some value) ∷ key_data) =
      let (same, there) = validate_deletions-existing existing key_data in
      (ap (λ t. (id, value) ∷ t) same, there)
  validate_deletions-existing existing ((id, none) ∷ key_data) =
      let (same, there) = validate_deletions-existing existing key_data in
      elim (Option-cases (existing id)) [
        | inl e ↦ (rw (validate_deletions, e) same, rw (validate_deletions, those_held, e) there)
        | inr (value, e) ↦ (
          rw (validate_deletions, e) same,
          rw (validate_deletions, those_held, e) (ap (λ ids. id ∷ ids) there),
        )
      ]

  delete_other :
      (j id : Text) (t : Transaction V)
      → text_eq j id ≡ false
      → ((delete j t).cache id ≡ t.cache id) × ((delete j t).mutations id ≡ t.mutations id)
  unfolding delete
  delete_other j id t e = (rw (update, e) refl, rw (update, e) refl)

  -- In a transaction, the deletion of a key that its cache does not have, or has as deleted, leaves that
  -- key's entries as they are, whatever else is deleted with it.
  pub process_deletions_absent :
      (existing : Text → Option V) (ids : List Text) (id : Text) (t : Transaction V)
      → is_present (t.cache id) ≡ false
      → ((process_deletions true existing ids t).cache id ≡ t.cache id)
        × ((process_deletions true existing ids t).mutations id ≡ t.mutations id)
  unfolding process_deletions
  process_deletions_absent existing [] id t h = (refl, refl)
  process_deletions_absent existing (j ∷ ids) id t h = elim (Bool-cases (is_present (t.cache j))) [
    | inr skip ↦
        let (cache, mutations) = process_deletions_absent existing ids id t h in
        (rw (process_deletions, skip) cache, rw (process_deletions, skip) mutations)
    | inl found ↦ elim (Bool-cases (text_eq j id)) [
      | inl same ↦
          absurd
            (both (ap (λ (k : Text). is_present (t.cache k)) ((text_eq_iff j id).0 same)) found h)
      | inr other ↦
          let (c, m) = delete_other j id t other in
          let (cache, mutations) =
            process_deletions_absent existing ids id (delete j t) (ap is_present c ∙ h) in
          (rw (process_deletions, found) (cache ∙ c), rw (process_deletions, found) (mutations ∙ m))
    ]
  ]
    where
      both : {a b : Bool} → a ≡ b → a ≡ true → b ≡ false → ⊥
      both e x y = absurd (cc)

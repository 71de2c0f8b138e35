-- ===== src/Keys/Transactions/Entries.antt =====
-- What the loops over ids and values leave in the dictionaries of a transaction.
use wassupweb.Prelude.{
  ◌≡◌, refl, ap, ◌∙◌, inl, inr, Bool, true, false, ◌||◌, Option, none, some, List, [], ◌∷◌,
  if◌then◌else◌, Bool-cases, Option-cases,
}
use wassupweb.Text.{Text, text_eq, text_eq_iff}
use wassupweb.Locks.{update}
use wassupweb.Keys.{Store, store_set_values}
use wassupweb.Keys.KeyStore.{entry_of, among}
use wassupweb.Keys.Cacheable.Entries.{sought, left_out}
use wassupweb.Keys.Transactions.{not_in, put_entries}

module _ {V : Type 0} where
  -- An entry of the type at hand takes the new value where there is one.
  abbrev pub changed : {P : Type 0} → Bool → Option (Option V) → (Option V → P) → P → P
  changed true (some v) new old = new v
  changed true none new old = old
  changed false e new old = old

  pub put_entries_lem :
      (values : List (Text × Option V)) (table : Text → Option (Option V)) (id : Text)
      → put_entries values table id ≡ changed true (entry_of id values) some (table id)
  unfolding put_entries entry_of update
  put_entries_lem [] table id = refl
  put_entries_lem ((x, v) ∷ values) table id =
      put_entries_lem values (update x (some v) table) id
      ∙ last (entry_of id values) (text_eq x id) (table id)
    where
      last :
          (later : Option (Option V)) (same : Bool) (old : Option (Option V))
          → changed true later some (if same then some v else old)
            ≡ changed true
                (elim later [ some u ↦ some u | none ↦ if same then some v else none ])
                some
                old
      last (some u) same old = refl
      last none true old = refl
      last none false old = refl

  -- The entries under one type are replaced.
  pub update_type :
      {P : Type 0} (t u id : Text) (values : List (Text × Option V)) (new : Option V → P)
      (table : Text → P) (tables : Text → Text → P)
      → table id ≡ changed true (entry_of id values) new (tables t id)
      → update t table tables u id ≡ changed (text_eq t u) (entry_of id values) new (tables u id)
  unfolding update
  update_type t u id values new table tables e = elim (Bool-cases (text_eq t u)) [
    | inl same ↦ rw same (
        e
        ∙ ap (λ (y : Text). changed true (entry_of id values) new (tables y id))
            ((text_eq_iff t u).0 same))
    | inr other ↦ rw other
  ]

  pub store_set_values_lem :
      (t : Text) (values : List (Text × Option V)) (store : Store V) (u id : Text)
      → store_set_values t values store u id
        ≡ changed (text_eq t u) (entry_of id values) (λ v. v) (store u id)
  unfolding store_set_values entry_of update
  store_set_values_lem t [] store u id = none_changed (text_eq t u) (store u id)
    where
      none_changed : (b : Bool) (old : Option V) → old ≡ changed b none (λ v. v) old
      none_changed true old = refl
      none_changed false old = refl
  store_set_values_lem t ((x, v) ∷ values) store u id =
      store_set_values_lem t values (update t (update x v (store t)) store) u id
      ∙ ap (changed (text_eq t u) (entry_of id values) (λ w. w)) (
          update_type t u id ((x, v) ∷ []) (λ w. w) (update x v (store t)) store
            (one (text_eq x id) (store t id)))
      ∙ merge (text_eq t u) (text_eq x id) (entry_of id values) (store u id)
    where
      one :
          (same : Bool) (old : Option V)
          → (if same then v else old) ≡ changed true (if same then some v else none) (λ w. w) old
      one true old = refl
      one false old = refl

      merge :
          (b same : Bool) (later : Option (Option V)) (old : Option V)
          → changed b later (λ w. w) (changed b (if same then some v else none) (λ w. w) old)
            ≡ changed b
                (elim later [ some u ↦ some u | none ↦ if same then some v else none ])
                (λ w. w)
                old
      merge true true (some w) old = refl
      merge true true none old = refl
      merge true false (some w) old = refl
      merge true false none old = refl
      merge false same later old = refl

  pub among-not_in :
      (cached : Text → Option (Option V)) (ids : List Text) (id : Text)
      → among id (not_in cached ids) ≡ sought (cached id) (among id ids)
  unfolding among not_in
  among-not_in cached [] id = elim (Option-cases (cached id)) [ inl e ↦ rw e | inr (p, e) ↦ rw e ]
  among-not_in cached (x ∷ ids) id =
      first (cached x) (not_in cached ids)
      ∙ left_out (cached x) (cached id) (text_eq x id) (among id ids) (among id (not_in cached ids))
          (among-not_in cached ids id) (λ same. ap cached ((text_eq_iff x id).0 same))
    where
      first :
          (o : Option (Option V)) (rest : List Text)
          → among id (elim o as (λ z. List Text) [ none ↦ x ∷ rest | some value ↦ rest ])
            ≡ elim o as (λ z. Bool) [
              | none ↦ text_eq x id || among id rest
              | some value ↦ among id rest
            ]
      first none rest = refl
      first (some value) rest = refl

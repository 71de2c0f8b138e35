-- ===== src/Keys/Cacheable/Entries.antt =====
-- What the loops over ids and items leave in the cache and in an answer.
use wassupweb.Prelude.{
  ℕ, ◌≡◌, refl, ap, ◌∙◌, inl, inr, Bool, true, false, ◌&&◌, ◌||◌, Option, none, some, List, [], ◌∷◌,
  arith, if◌then◌else◌, Bool-cases, Option-cases, All,
}
use wassupweb.Text.{Text, text_eq, text_eq_iff, contains}
use wassupweb.Locks.{update}
use wassupweb.Keys.{put_all}
use wassupweb.Keys.KeyStore.{entry_of, among}
use wassupweb.Keys.Cacheable.{
  cache_key, Entries, note_value, found, missing, put_values, put_data, dict_of,
}

module _ {P : Type 0} where
  -- Whether an id is looked for in the store below.
  abbrev pub sought : Option P → Bool → Bool
  sought none b = b
  sought (some p) b = false

  pub left_out :
      (ex eid : Option P) (same later rest : Bool)
      → rest ≡ sought eid later
      → (same ≡ true → ex ≡ eid)
      → elim ex as (λ (o : Option P). Bool) [ none ↦ same || rest | some p ↦ rest ]
        ≡ sought eid (same || later)
  left_out none none same later rest e h = rw e
  left_out none (some p) true later rest e h = absurd (let z = h refl in cc)
  left_out none (some p) false later rest e h = e
  left_out (some p) none true later rest e h = absurd (let z = h refl in cc)
  left_out (some p) none false later rest e h = e
  left_out (some p) (some q) same later rest e h = e

-- The names of the types have no dot.
abbrev pub IsKeyType : Text → Type 0
IsKeyType key_type = contains b'.' key_type ≡ false

pub cache_key-eq :
    (t : Text) (x : Text) (u : Text) (y : Text)
    → IsKeyType t
    → IsKeyType u
    → text_eq (cache_key t x) (cache_key u y) ≡ (text_eq t u && text_eq x y)
unfolding cache_key text_eq contains
cache_key-eq [] x [] y ht hu = refl
cache_key-eq [] x (d ∷ u) y ht hu = ground arith
cache_key-eq (c ∷ t) x [] y ht hu = ground arith
cache_key-eq (c ∷ t) x (d ∷ u) y ht hu = ground (arith, cache_key-eq t x u y)

module _ {V W : Type 0} where
  -- An entry that a dictionary has, or else the one that was there.
  abbrev pub over : Option W → (W → Option V × ℕ) → Option (Option V × ℕ) → Option (Option V × ℕ)
  over (some w) f old = some (f w)
  over none f old = old

module _ {V W : Type 0} (value : W → Option V) (expiry : ℕ) where
  put_step :
      (same_type same_id : Bool) (last : Option W) (w : W) (old : Option (Option V × ℕ))
      → over
          (if same_type then last else none)
          (λ u. (value u, expiry))
          (if same_type && same_id then some (value w, expiry) else old)
        ≡ over
            (if same_type
              then elim last [ some u ↦ some u | none ↦ if same_id then some w else none ]
              else none)
            (λ u. (value u, expiry))
            old
  put_step true true none w old = refl
  put_step true true (some u) w old = refl
  put_step true false none w old = refl
  put_step true false (some u) w old = refl
  put_step false same_id last w old = refl

  pub put_values_lem :
      (t : Text) (items : List (Text × W)) (entries : Entries V) (u id : Text)
      → IsKeyType t
      → IsKeyType u
      → put_values value t items expiry entries (cache_key u id)
        ≡ over
            (if text_eq t u then entry_of id items else none)
            (λ w. (value w, expiry))
            (entries (cache_key u id))
  unfolding put_values entry_of update
  put_values_lem t [] entries u id ht hu = elim (Bool-cases (text_eq t u)) [
    | inl e ↦ rw e
    | inr e ↦ rw e
  ]
  put_values_lem t ((x, w) ∷ items) entries u id ht hu =
      put_values_lem t items (update (cache_key t x) (some (value w, expiry)) entries) u id ht hu
      ∙ rw (cache_key-eq t x u id ht hu)
          (put_step (text_eq t u) (text_eq x id) (entry_of id items) w (entries (cache_key u id)))

module _ {V : Type 0} where
  -- The keys of a data set are names of types.
  abbrev pub HasKeyTypes : List (Text × List (Text × Option V)) → Type 0
  HasKeyTypes data_set = All (λ (p : Text × List (Text × Option V)). IsKeyType p.0) data_set

  pub put_data_lem :
      (data_set : List (Text × List (Text × Option V))) (expiry : ℕ) (entries : Entries V)
      (u id : Text)
      → HasKeyTypes data_set
      → IsKeyType u
      → put_data data_set expiry entries (cache_key u id)
        ≡ over (dict_of data_set u id) (λ v. (v, expiry)) (entries (cache_key u id))
  unfolding put_data dict_of
  put_data_lem [] expiry entries u id hs hu = refl
  put_data_lem ((t, values) ∷ data_set) expiry entries u id (ht, hs) hu =
      put_data_lem data_set expiry (put_values (λ v. v) t values expiry entries) u id hs hu
      ∙ rw (put_values_lem (λ (v : Option V). v) expiry t values entries u id ht hu) (
          last (dict_of data_set u id) (if text_eq t u then entry_of id values else none)
            (entries (cache_key u id)))
    where
      last :
          (later first : Option (Option V)) (old : Option (Option V × ℕ))
          → over later (λ v. (v, expiry)) (over first (λ v. (v, expiry)) old)
            ≡ over (elim later [ some v ↦ some v | none ↦ first ]) (λ v. (v, expiry)) old
      last (some v) first old = refl
      last none first old = refl

  -- The value that was loaded, or else what was there.
  abbrev pub pick : Option V → Option (Option V) → Option (Option V)
  pick (some v) old = some (some v)
  pick none old = old

  pub put_all_lem :
      (items : List (Text × V)) (table : Text → Option (Option V)) (id : Text)
      → put_all items table id ≡ pick (entry_of id items) (table id)
  unfolding put_all entry_of update
  put_all_lem [] table id = refl
  put_all_lem ((x, v) ∷ items) table id =
      put_all_lem items (update x (some (some v)) table) id
      ∙ last (entry_of id items) (text_eq x id) v (table id)
    where
      last :
          (later : Option V) (same : Bool) (v : V) (old : Option (Option V))
          → pick later (if same then some (some v) else old)
            ≡ pick (elim later [ some u ↦ some u | none ↦ if same then some v else none ]) old
      last (some u) same v old = refl
      last none true v old = refl
      last none false v old = refl

  -- The value of an entry.
  abbrev pub value_of : Option (Option V × ℕ) → Option (Option V)
  value_of none = none
  value_of (some (value, expiry)) = some value

  same_key :
      (key_type x id : Text) (entries : Entries V)
      → text_eq x id ≡ true
      → entries (cache_key key_type x) ≡ entries (cache_key key_type id)
  same_key key_type x id entries e =
      ap (λ (y : Text). entries (cache_key key_type y)) ((text_eq_iff x id).0 e)

  -- One round of the loop over the ids, on the answer for one of them.
  noted_at :
      (x id : Text) (o : Option (Option V × ℕ)) (r : Text → Option (Option V))
      → note_value x o r id
        ≡ elim o [ none ↦ r id | some p ↦ if text_eq x id then some p.0 else r id ]
  unfolding note_value update
  noted_at x id none r = refl
  noted_at x id (some (v, e)) r = refl

  noted :
      (o : Option (Option V × ℕ)) (same later : Bool) (rest held : Option (Option V))
      → rest ≡ (if later then held else none)
      → (same ≡ true → value_of o ≡ held)
      → elim o as (λ o. Option (Option V)) [
        | none ↦ rest
        | some p ↦ if same then some p.0 else rest
      ]
        ≡ (if same || later then held else none)
  noted none true true rest held e h = e
  noted none true false rest held e h = e ∙ h refl
  noted none false later rest held e h = e
  noted (some (v, x)) true later rest held e h = h refl
  noted (some (v, x)) false later rest held e h = e

  pub found_lem :
      (key_type : Text) (ids : List Text) (entries : Entries V) (id : Text)
      → found key_type ids entries id
        ≡ (if among id ids then value_of (entries (cache_key key_type id)) else none)
  unfolding found among note_value update
  found_lem key_type [] entries id = refl
  found_lem key_type (x ∷ ids) entries id =
      noted_at x id (entries (cache_key key_type x)) (found key_type ids entries)
      ∙ noted (entries (cache_key key_type x)) (text_eq x id) (among id ids) _ _
          (found_lem key_type ids entries id)
          (λ same. ap value_of (same_key key_type x id entries same))

  among-missing_cons :
      (key_type x : Text) (ids : List Text) (entries : Entries V) (id : Text)
      → among id (missing key_type (x ∷ ids) entries) ≡ elim (entries (cache_key key_type x)) [
        | none ↦ text_eq x id || among id (missing key_type ids entries)
        | some p ↦ among id (missing key_type ids entries)
      ]
  unfolding missing among
  among-missing_cons key_type x ids entries id =
      elim (Option-cases (entries (cache_key key_type x))) [
        | inl e ↦ rw (e, missing)
        | inr (p, e) ↦ rw (e, missing)
      ]

  pub among-missing :
      (key_type : Text) (ids : List Text) (entries : Entries V) (id : Text)
      → among id (missing key_type ids entries)
        ≡ sought (entries (cache_key key_type id)) (among id ids)
  unfolding missing among
  among-missing key_type [] entries id = elim (Option-cases (entries (cache_key key_type id))) [
    | inl e ↦ rw e
    | inr (p, e) ↦ rw e
  ]
  among-missing key_type (x ∷ ids) entries id =
      among-missing_cons key_type x ids entries id
      ∙ left_out (entries (cache_key key_type x)) (entries (cache_key key_type id)) (text_eq x id)
          (among id ids) (among id (missing key_type ids entries))
          (among-missing key_type ids entries id) (same_key key_type x id entries)

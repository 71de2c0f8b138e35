-- ===== src/Retry/Lookup.antt =====
-- What `_TTLOrderedCache` gives back: the value that was set, until it expires or is deleted.
use wassupweb.Prelude.{
  ℕ, ◌≤◌, ◌<◌, ◌≡◌, refl, sym, ◌∙◌, inl, inr, true, none, some, List, [], ◌∷◌, ◌++◌, arith, ltb,
  ◌==◌, le→ltb, Bool-cases, Option-cases, length,
}
use wassupweb.Text.{Text, text_eq, text_eq_iff}
use wassupweb.Retry.Cache.{
  Cache, lookup, remove, fresh, evict, purge_expired, evict_if_needed, expiry, cache_set, cache_get,
  cache_delete,
}

pub text_eq_refl : (s : Text) → text_eq s s ≡ true
text_eq_refl s = (text_eq_iff s s).1 refl

module _ {ℓ} {V : Type ℓ} where
  lookup-remove : (key : Text) (s : List (Text × V × ℕ)) → lookup key (remove key s) ≡ none
  unfolding lookup remove
  lookup-remove key [] = refl
  lookup-remove key ((k, v, exp) ∷ s) = ground (arith, lookup-remove key s)

  lookup-fresh_absent :
      (now : ℕ) (key : Text) (s : List (Text × V × ℕ))
      → lookup key s ≡ none
      → lookup key (fresh now s) ≡ none
  unfolding lookup fresh
  lookup-fresh_absent now key [] h = refl
  lookup-fresh_absent now key ((k, v, exp) ∷ s) h = ground (arith, lookup-fresh_absent now key s)

  lookup-fresh :
      (now : ℕ) (key : Text) (s : List (Text × V × ℕ)) (v : V) (exp : ℕ)
      → lookup key s ≡ some (v, exp)
      → now < exp
      → lookup key (fresh now s) ≡ some (v, exp)
  unfolding lookup fresh
  lookup-fresh now key [] v exp h alive = h
  lookup-fresh now key ((k, w, e) ∷ s) v exp h alive = ground (arith, lookup-fresh now key s v exp)

  lookup-append :
      (key : Text) (s : List (Text × V × ℕ)) (v : V) (exp : ℕ)
      → lookup key s ≡ none
      → lookup key (s ++ (key, v, exp) ∷ []) ≡ some (v, exp)
  unfolding lookup
  lookup-append key [] v exp h = rw (text_eq_refl key) refl
  lookup-append key ((k, w, e) ∷ s) v exp h = ground (arith, lookup-append key s v exp)

  behind :
      (key k : Text) (w : V) (e : ℕ) (s : List (Text × V × ℕ))
      → lookup key ((k, w, e) ∷ s) ≡ none
      → lookup key s ≡ none
  unfolding lookup
  behind key k w e s h = ground arith

  -- The newest entry stays where there is room for one entry.
  lookup-evict :
      (max_items : ℕ) (key : Text) (s : List (Text × V × ℕ)) (v : V) (exp : ℕ)
      → 1 ≤ max_items
      → lookup key s ≡ none
      → lookup key (evict max_items (s ++ (key, v, exp) ∷ [])) ≡ some (v, exp)
  unfolding evict
  lookup-evict max_items key [] v exp room h =
      rw (le→ltb max_items 1 room) (lookup-append key [] v exp h)
  lookup-evict max_items key ((k, w, e) ∷ s) v exp room h =
      let size = length ((k, w, e) ∷ (s ++ (key, v, exp) ∷ [])) in
      elim (Bool-cases (ltb max_items size)) [
        | inl full ↦ rw full (lookup-evict max_items key s v exp room (behind key k w e s h))
        | inr fits ↦ rw fits (lookup-append key ((k, w, e) ∷ s) v exp h)
      ]

  -- `c` has room for an entry at least.
  unfoldable pub HasRoom : Cache V → Type 0
  HasRoom c = (max_items : ℕ) → c.max_items ≡ some max_items → 1 ≤ max_items

  lookup-purge_expired :
      (now : ℕ) (key : Text) (c : Cache V) (v : V) (exp : ℕ)
      → lookup key c.store ≡ some (v, exp)
      → now < exp
      → lookup key (purge_expired now c).store ≡ some (v, exp)
  unfolding purge_expired
  lookup-purge_expired now key c v exp h alive = elim (Bool-cases (c.ttl_ms == 0)) [
    | inl e ↦ rw (purge_expired, e) h
    | inr e ↦ rw (purge_expired, e) (lookup-fresh now key c.store v exp h alive)
  ]

  lookup-purge_none :
      (now : ℕ) (key : Text) (c : Cache V)
      → lookup key c.store ≡ none
      → lookup key (purge_expired now c).store ≡ none
  unfolding purge_expired
  lookup-purge_none now key c h = elim (Bool-cases (c.ttl_ms == 0)) [
    | inl e ↦ rw (purge_expired, e) h
    | inr e ↦ rw (purge_expired, e) (lookup-fresh_absent now key c.store h)
  ]

  pub purge_expired-fields :
      (now : ℕ) (c : Cache V)
      → ((purge_expired now c).ttl_ms ≡ c.ttl_ms) × ((purge_expired now c).max_items ≡ c.max_items)
  unfolding purge_expired
  purge_expired-fields now c = elim (Bool-cases (c.ttl_ms == 0)) [
    | inl e ↦ (rw (purge_expired, e) refl, rw (purge_expired, e) refl)
    | inr e ↦ (rw (purge_expired, e) refl, rw (purge_expired, e) refl)
  ]

  lookup-evict_if_needed :
      (key : Text) (c : Cache V) (s : List (Text × V × ℕ)) (v : V) (exp : ℕ)
      → HasRoom c
      → lookup key s ≡ none
      → lookup key (evict_if_needed (record c { store = s ++ (key, v, exp) ∷ [] })).store
        ≡ some (v, exp)
  unfolding evict_if_needed HasRoom
  lookup-evict_if_needed key c s v exp room h = elim (Option-cases c.max_items) [
    | inl e ↦ rw (evict_if_needed, e) (lookup-append key s v exp h)
    | inr (max_items, e) ↦
        rw (evict_if_needed, e) (lookup-evict max_items key s v exp (room max_items e) h)
  ]

  lookup-cache_set :
      (now : ℕ) (key : Text) (value : V) (c : Cache V)
      → HasRoom c
      → lookup key (cache_set now key value c).store ≡ some (value, expiry now c)
  unfolding cache_set HasRoom expiry
  lookup-cache_set now key value c room =
      let d = purge_expired now c in
      let (same_ttl, same_room) = purge_expired-fields now c in
      lookup-evict_if_needed key d (remove key d.store) value (expiry now d)
        (λ m e. room m (sym same_room ∙ e)) (lookup-remove key d.store)
      ∙ rw same_ttl refl

  get_found :
      (now : ℕ) (key : Text) (c : Cache V) (v : V) (exp : ℕ)
      → lookup key (purge_expired now c).store ≡ some (v, exp)
      → now < exp
      → (cache_get now key c).0 ≡ some v
  unfolding cache_get
  get_found now key c v exp h alive = rw (cache_get, h) (ground arith)

  get_absent :
      (now : ℕ) (key : Text) (c : Cache V)
      → lookup key (purge_expired now c).store ≡ none
      → (cache_get now key c).0 ≡ none
  unfolding cache_get
  get_absent now key c h = rw (cache_get, h) refl

  -- A value that was set is found until it expires, whatever the cache held, where the cache has room
  -- for one entry at least.
  pub cache_get-set :
      (now later : ℕ) (key : Text) (value : V) (c : Cache V)
      → HasRoom c
      → later < expiry now c
      → (cache_get later key (cache_set now key value c)).0 ≡ some value
  cache_get-set now later key value c room alive =
      let set = cache_set now key value c in
      get_found later key set value (expiry now c)
        (lookup-purge_expired later key set value (expiry now c)
          (lookup-cache_set now key value c room) alive)
        alive

  -- A deleted key is not found.
  pub cache_get-delete :
      (now : ℕ) (key : Text) (c : Cache V) → (cache_get now key (cache_delete key c)).0 ≡ none
  unfolding cache_delete
  cache_get-delete now key c =
      get_absent now key (cache_delete key c)
        (lookup-purge_none now key (cache_delete key c) (lookup-remove key c.store))

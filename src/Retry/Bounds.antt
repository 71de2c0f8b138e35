-- ===== src/Retry/Bounds.antt =====
-- The recent messages never outgrow their limit, whatever is called in whatever order.
use wassupweb.Prelude.{
  ℕ, ◌≤◌, ◌<◌, ◌≡◌, inl, inr, some, List, [], ◌∷◌, ◌++◌, arith, leb, ◌==◌, Bool-cases, Option-cases,
  length, length-append,
}
use wassupweb.Text.{Text}
use wassupweb.Retry.Cache.{
  Cache, lookup, remove, fresh, evict, purge_expired, evict_if_needed, expiry, cache_set, cache_get,
  cache_delete,
}

module _ {ℓ} {V : Type ℓ} where
  length-evict : (n : ℕ) (s : List (Text × V × ℕ)) → length (evict n s) ≤ n
  unfolding evict
  length-evict n [] = omega arith
  length-evict n (e ∷ s) = ground (arith, length-evict n s)

  length-remove : (key : Text) (s : List (Text × V × ℕ)) → length (remove key s) ≤ length s
  unfolding remove
  length-remove key [] = omega arith
  length-remove key ((k, v, exp) ∷ s) = ground (arith, length-remove key s)

  length-remove_found :
      (key : Text) (s : List (Text × V × ℕ)) (e : V × ℕ)
      → lookup key s ≡ some e
      → length (remove key s) < length s
  unfolding remove lookup
  length-remove_found key [] e h = absurd (cc)
  length-remove_found key ((k, v, exp) ∷ s) e h =
      ground (arith, length-remove key s, length-remove_found key s e)

  length-fresh : (now : ℕ) (s : List (Text × V × ℕ)) → length (fresh now s) ≤ length s
  unfolding fresh
  length-fresh now [] = omega arith
  length-fresh now ((k, v, exp) ∷ s) = ground (arith, length-fresh now s)

  -- At most `n` entries, and no room for more.
  pub record IsBounded (n : ℕ) (c : Cache V) : Type ℓ where
    pub limit : c.max_items ≡ some n
    pub size : length c.store ≤ n

  IsBounded-purge_expired :
      (n now : ℕ) (c : Cache V) → IsBounded n c → IsBounded n (purge_expired now c)
  unfolding purge_expired
  IsBounded-purge_expired n now c b = elim (Bool-cases (c.ttl_ms == 0)) [
    | inl e ↦ rw (purge_expired, e) b
    | inr e ↦
        rw (purge_expired, e)
          (record { limit = b.limit; size = omega (arith, b.size, length-fresh now c.store) })
  ]

  IsBounded-evict_if_needed :
      (n : ℕ) (c : Cache V) → c.max_items ≡ some n → IsBounded n (evict_if_needed c)
  unfolding evict_if_needed
  IsBounded-evict_if_needed n c e =
      rw (evict_if_needed, e) (record { limit = e; size = length-evict n c.store })

  pub IsBounded-cache_set :
      (n now : ℕ) (key : Text) (value : V) (c : Cache V)
      → IsBounded n c
      → IsBounded n (cache_set now key value c)
  unfolding cache_set
  IsBounded-cache_set n now key value c b =
      let d = purge_expired now c in
      let h = IsBounded-purge_expired n now c b in
      IsBounded-evict_if_needed n
        (record d { store = remove key d.store ++ (key, value, expiry now d) ∷ [] }) h.limit

  pub IsBounded-cache_get :
      (n now : ℕ) (key : Text) (c : Cache V) → IsBounded n c → IsBounded n (cache_get now key c).1
  unfolding cache_get
  IsBounded-cache_get n now key c b =
      let d = purge_expired now c in
      let h = IsBounded-purge_expired n now c b in
      elim (Option-cases (lookup key d.store)) [
        | inl e ↦ rw (cache_get, e) h
        | inr ((v, exp), e) ↦ elim (Bool-cases (leb exp now)) [
          | inl old ↦
              rw (cache_get, e, old)
                (record {
                  limit = h.limit;
                  size = omega (arith, h.size, length-remove key d.store);
                })
          | inr new ↦
              rw (cache_get, e, new)
                (record {
                  limit = h.limit;
                  size = omega (
                    arith,
                    h.size,
                    length-remove_found key d.store (v, exp) e,
                    length-append (remove key d.store) ((key, v, exp) ∷ []),
                  );
                })
        ]
      ]

  pub IsBounded-cache_delete :
      (n : ℕ) (key : Text) (c : Cache V) → IsBounded n c → IsBounded n (cache_delete key c)
  unfolding cache_delete
  IsBounded-cache_delete n key c b = record {
    limit = b.limit;
    size = omega (arith, b.size, length-remove key c.store);
  }

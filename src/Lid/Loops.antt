-- ===== src/Lid/Loops.antt =====
-- What the loops of `store_lid_pn_mappings` leave of one phone number.
use wassupweb.Prelude.{
  ℕ, ◌+◌, ◌<◌, ◌≡◌, refl, sym, ap, ◌∙◌, ◌⊎◌, inl, inr, Bool, true, false, ◌||◌, Option, none, some,
  List, [], ◌∷◌, arith, leb, if◌then◌else◌, Bool-cases, All,
}
use wassupweb.Text.{Text, text_eq, text_eq_iff}
use wassupweb.Locks.{update}
use wassupweb.Keys.KeyStore.{entry_of}
use wassupweb.Lid.{
  MappingCache, pn_key, lid_key, renewed, value_in, cache_get, cache_set, cache_pair, truthy,
  dict_put,
}
use wassupweb.Lid.Storing.{
  Known, note, look_up, take_stored, take_all, is_known, pair_map, cache_all,
}

-- Every pair of the phone number's user has that LID.
abbrev pub MapsTo : Text → Text → List (Text × Text) → Type 0
MapsTo p l pairs = All (λ (q : Text × Text). text_eq q.0 p ≡ true → q.1 ≡ l) pairs

-- There is a pair of the user.
unfoldable pub mentions : Text → List (Text × Text) → Bool
mentions p [] = false
mentions p ((q, x) ∷ pairs) = text_eq q p || mentions p pairs

pn_key-eq : (q p : Text) → text_eq (pn_key q) (pn_key p) ≡ text_eq q p
unfolding pn_key text_eq
pn_key-eq q p = refl

lid_key-ne : (x p : Text) → text_eq (lid_key x) (pn_key p) ≡ false
unfolding lid_key pn_key text_eq
lid_key-ne x p = refl

-- A pair in the cache is found under its phone number, and no other is changed.
cache_pair_lem :
    (ttl now : ℕ) (q x : Text) (cache : MappingCache) (p : Text)
    → cache_pair ttl now q x cache (pn_key p)
      ≡ (if text_eq q p then some (x, now + ttl) else cache (pn_key p))
unfolding cache_pair cache_set update
cache_pair_lem ttl now q x cache p = rw (lid_key-ne x p, pn_key-eq q p)

truthy-some : (w v : Text) → truthy (some w) ≡ some v → w ≡ v
unfolding truthy
truthy-some [] v e = absurd (cc)
truthy-some (c ∷ w) v e = cc

module _ (ttl now : ℕ) (p l : Text) where
  pub cache_all-kept :
      (news : List (Text × Text)) (cache : MappingCache)
      → MapsTo p l news
      → (mentions p news ≡ true) ⊎ (cache (pn_key p) ≡ some (l, now + ttl))
      → cache_all ttl now news cache (pn_key p) ≡ some (l, now + ttl)
  unfolding cache_all mentions
  cache_all-kept [] cache h (inl e) = absurd (cc)
  cache_all-kept [] cache h (inr e) = e
  cache_all-kept ((q, x) ∷ news) cache (hq, h) e =
      cache_all-kept news (cache_pair ttl now q x cache) h (step (Bool-cases (text_eq q p)) e)
    where
      step :
          (text_eq q p ≡ true) ⊎ (text_eq q p ≡ false)
          → ((text_eq q p || mentions p news) ≡ true) ⊎ (cache (pn_key p) ≡ some (l, now + ttl))
          → (mentions p news ≡ true)
            ⊎ (cache_pair ttl now q x cache (pn_key p) ≡ some (l, now + ttl))
      step (inl same) e = inr (cache_pair_lem ttl now q x cache p ∙ rw (same, hq same))
      step (inr other) (inl e) = inl (rw other at e)
      step (inr other) (inr e) = inr (cache_pair_lem ttl now q x cache p ∙ rw other e)

  -- What is known of the user is in the cache with a new time.
  abbrev pub IsFresh : Known → Type 0
  IsFresh k = (x : Text) → k.existing p ≡ some x → k.cache (pn_key p) ≡ some (x, now + ttl)

  fresh_or_kept :
      (b : Bool) (x y : Text) (old : Option Text) (entry : Option (Text × ℕ))
      → (old ≡ some y → entry ≡ some (y, now + ttl))
      → (if b then some x else old) ≡ some y
      → (if b then some (x, now + ttl) else entry) ≡ some (y, now + ttl)
  fresh_or_kept true x y old entry h e = same e
    where
      same : some x ≡ some y → Path (Option (Text × ℕ)) (some (x, now + ttl)) (some (y, now + ttl))
      same e = cc
  fresh_or_kept false x y old entry h e = h e

  pub take_all-IsFresh :
      (stored : List (Text × Text)) (misses : List Text) (k : Known)
      → IsFresh k
      → IsFresh (take_all ttl now stored misses k)
  unfolding take_all take_stored update
  take_all-IsFresh stored [] k h = h
  take_all-IsFresh stored (q ∷ misses) k h =
      take_all-IsFresh stored misses (take_stored ttl now q (truthy (entry_of q stored)) k)
        (taken (truthy (entry_of q stored)))
    where
      taken : (o : Option Text) → IsFresh (take_stored ttl now q o k)
      taken none y e = h y e
      taken (some x) y e =
          cache_pair_lem ttl now q x k.cache p
          ∙ fresh_or_kept (text_eq q p) x y (k.existing p) (k.cache (pn_key p)) (h y) e

  -- An entry that was just made is renewed as it is.
  renewed_fresh : (y : Text) → 0 < ttl → renewed ttl now (some (y, now + ttl)) ≡ some (y, now + ttl)
  unfolding renewed
  renewed_fresh y pos = let ahead : leb (now + ttl) now ≡ false = ground arith in rw ahead

  renewed_time :
      (o : Option (Text × ℕ)) (v : Text)
      → truthy (value_in (renewed ttl now o)) ≡ some v
      → renewed ttl now o ≡ some (v, now + ttl)
  unfolding renewed value_in truthy
  renewed_time none v e = absurd (cc)
  renewed_time (some (w, x)) v e = elim (Bool-cases (leb x now)) [
    | inl old ↦ absurd (nothing (rw old at e))
    | inr fresh ↦
        rw fresh (ap (λ (t : Text). some (t, now + ttl)) (truthy-some w v (rw fresh at e)))
  ]
    where
      nothing : Path (Option Text) none (some v) → ⊥
      nothing e = cc

  looked_up :
      (q : Text) (k : Known) (r : Option (Text × ℕ)) (o : Option Text)
      → IsFresh k
      → ((v : Text) → o ≡ some v → r ≡ some (v, now + ttl))
      → ((y : Text)
          → text_eq q p ≡ true
          → k.cache (pn_key p) ≡ some (y, now + ttl)
          → r ≡ some (y, now + ttl))
      → IsFresh (note q o (record k { cache = update (pn_key q) r k.cache }))
  unfolding note update
  looked_up q k r none h new again y e = elim (Bool-cases (text_eq q p)) [
    | inl same ↦ rw (pn_key-eq q p, same) (again y same (h y e))
    | inr other ↦ rw (pn_key-eq q p, other) (h y e)
  ]
  looked_up q k r (some v) h new again y e =
      rw (pn_key-eq q p, new v refl)
        (fresh_or_kept (text_eq q p) v y (k.existing p) (k.cache (pn_key p)) (h y) e)

  looked :
      (q : Text) (k : Known)
      → 0 < ttl
      → IsFresh k
      → IsFresh (
          note q
            (truthy (cache_get ttl now (pn_key q) k.cache).0)
            (record k { cache = (cache_get ttl now (pn_key q) k.cache).1 }))
  unfolding cache_get
  looked q k pos h =
      let r : Option (Text × ℕ) = renewed ttl now (k.cache (pn_key q)) in
      looked_up q k r (truthy (value_in r)) h (λ v e. renewed_time (k.cache (pn_key q)) v e)
        (λ y same e.
          ap (λ (t : Text). renewed ttl now (k.cache (pn_key t))) ((text_eq_iff q p).0 same)
          ∙ ap (renewed ttl now) e
          ∙ renewed_fresh y pos)

  pub look_up-IsFresh :
      (pairs : List (Text × Text)) (k : Known)
      → 0 < ttl
      → IsFresh k
      → IsFresh (look_up ttl now pairs k)
  unfolding look_up
  look_up-IsFresh [] k pos h = h
  look_up-IsFresh ((q, x) ∷ pairs) k pos h = look_up-IsFresh pairs _ pos (looked q k pos h)

  dict_put-MapsTo :
      (q x : Text) (news : List (Text × Text))
      → (text_eq q p ≡ true → x ≡ l)
      → MapsTo p l news
      → MapsTo p l (dict_put q x news)
  unfolding dict_put
  dict_put-MapsTo q x [] hq h = (hq, tt)
  dict_put-MapsTo q x ((k, v) ∷ news) hq (hk, h) = elim (Bool-cases (text_eq k q)) [
    | inl e ↦
        rw e ((λ same. hq (ap (λ (t : Text). text_eq t p) (sym ((text_eq_iff k q).0 e)) ∙ same)), h)
    | inr e ↦ rw e (hk, dict_put-MapsTo q x news hq h)
  ]

  mentions-dict_put :
      (q x : Text) (news : List (Text × Text))
      → mentions p (dict_put q x news) ≡ (mentions p news || text_eq q p)
  unfolding dict_put mentions
  mentions-dict_put q x [] = ground arith
  mentions-dict_put q x ((k, v) ∷ news) = elim (Bool-cases (text_eq k q)) [
    | inl e ↦ rw e (
        replaced (text_eq k p) (text_eq q p) (mentions p news)
          (ap (λ (t : Text). text_eq t p) ((text_eq_iff k q).0 e)))
    | inr e ↦ rw e (
        ap (λ (b : Bool). text_eq k p || b) (mentions-dict_put q x news)
        ∙ regrouped (text_eq k p) (mentions p news) (text_eq q p))
  ]
    where
      replaced : (a b m : Bool) → a ≡ b → (a || m) ≡ ((a || m) || b)
      replaced a b m e = ground arith

      regrouped : (a m b : Bool) → (a || (m || b)) ≡ ((a || m) || b)
      regrouped a m b = ground arith

  -- The new pairs agree with the others, and have the user if its LID was not known.
  pub pair_map-MapsTo :
      (existing : Text → Option Text) (pairs news : List (Text × Text))
      → MapsTo p l pairs
      → MapsTo p l news
      → MapsTo p l (pair_map existing pairs news)
  unfolding pair_map
  pair_map-MapsTo existing [] news hs h = h
  pair_map-MapsTo existing ((q, x) ∷ pairs) news (hq, hs) h =
      pair_map-MapsTo existing pairs _ hs (added (is_known (existing q) x))
    where
      added : (b : Bool) → MapsTo p l (if b then news else dict_put q x news)
      added true = h
      added false = dict_put-MapsTo q x news hq h

  pub pair_map-mentions :
      (existing : Text → Option Text) (pairs news : List (Text × Text))
      → MapsTo p l pairs
      → (mentions p news || mentions p pairs) ≡ true
      → (mentions p (pair_map existing pairs news) ≡ true) ⊎ (existing p ≡ some l)
  unfolding pair_map mentions is_known
  pair_map-mentions existing [] news hs h = inl (first (mentions p news) h)
    where
      first : (a : Bool) → (a || false) ≡ true → a ≡ true
      first a e = ground arith
  pair_map-mentions existing ((q, x) ∷ pairs) news (hq, hs) h =
      elim (Bool-cases (is_known (existing q) x)) [
        | inl old ↦ rw old (elim (Bool-cases (text_eq q p)) [
          | inl same ↦ inr (
              ap existing (sym ((text_eq_iff q p).0 same))
              ∙ known (existing q) old
              ∙ ap (λ (t : Text). some t) (hq same))
          | inr other ↦
              pair_map-mentions existing pairs news hs
                (later (mentions p news) (text_eq q p) (mentions p pairs) other h)
        ])
        | inr fresh ↦ rw fresh (
            pair_map-mentions existing pairs (dict_put q x news) hs (
              ap (λ (b : Bool). b || mentions p pairs) (mentions-dict_put q x news)
              ∙ regrouped (mentions p news) (text_eq q p) (mentions p pairs)
              ∙ h))
      ]
    where
      known : (o : Option Text) → is_known o x ≡ true → o ≡ some x
      known none e = absurd (cc)
      known (some t) e = ap (λ (u : Text). some u) ((text_eq_iff t x).0 e)

      later : (m b r : Bool) → b ≡ false → (m || (b || r)) ≡ true → (m || r) ≡ true
      later m b r e h = ground arith

      regrouped : (m b r : Bool) → ((m || b) || r) ≡ (m || (b || r))
      regrouped m b r = ground arith

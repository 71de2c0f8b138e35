-- ===== src/Retry/Cache.antt =====
-- `_TTLOrderedCache` of wassupweb/utils/message_retry_manager.py. Times are milliseconds; an
-- operation reads the clock once. A dictionary has a key once, so removing a key removes every entry
-- of it.
use wassupweb.Prelude.{
  ℕ, ◌+◌, Bool, true, false, Option, none, some, List, [], ◌∷◌, ◌++◌, ltb, leb, ◌==◌, if◌then◌else◌,
  length,
}
use wassupweb.Text.{Text, text_eq}

module _ {ℓ} {V : Type ℓ} where
  unfoldable pub lookup : Text → List (Text × V × ℕ) → Option (V × ℕ)
  lookup key [] = none
  lookup key ((k, value, exp) ∷ store) =
      if text_eq k key then some (value, exp) else lookup key store

  unfoldable pub remove : Text → List (Text × V × ℕ) → List (Text × V × ℕ)
  remove key [] = []
  remove key ((k, value, exp) ∷ store) =
      if text_eq k key then remove key store else (k, value, exp) ∷ remove key store

  -- What has not expired: `exp <= now` goes.
  unfoldable pub fresh : ℕ → List (Text × V × ℕ) → List (Text × V × ℕ)
  fresh now [] = []
  fresh now ((k, value, exp) ∷ store) =
      if leb exp now then fresh now store else (k, value, exp) ∷ fresh now store

  -- `while len(store) > max_items: store.popitem(last=False)`
  unfoldable pub evict : ℕ → List (Text × V × ℕ) → List (Text × V × ℕ)
  evict max_items [] = []
  evict max_items (e ∷ store) =
      let rest = evict max_items store in
      if ltb max_items (length (e ∷ store)) then rest else e ∷ store

pub record Cache {ℓ} (V : Type ℓ) : Type ℓ where
  pub max_items : Option ℕ
  pub ttl_ms : ℕ
  pub store : List (Text × V × ℕ)

-- 2 ** 63 - 1
abbrev pub never : ℕ
never = 9223372036854775807

module _ {ℓ} {V : Type ℓ} where
  unfoldable pub purge_expired : ℕ → Cache V → Cache V
  unfolding fresh
  purge_expired now c = if c.ttl_ms == 0 then c else record c { store = fresh now c.store }

  unfoldable pub evict_if_needed : Cache V → Cache V
  unfolding evict
  evict_if_needed c = elim c.max_items [
    | none ↦ c
    | some max_items ↦ record c { store = evict max_items c.store }
  ]

  unfoldable pub expiry : ℕ → Cache V → ℕ
  expiry now c = if c.ttl_ms == 0 then never else now + c.ttl_ms

  unfoldable pub cache_set : ℕ → Text → V → Cache V → Cache V
  unfolding purge_expired evict_if_needed expiry remove
  cache_set now key value c =
      let p = purge_expired now c in
      evict_if_needed (record p { store = remove key p.store ++ (key, value, expiry now p) ∷ [] })

  -- A hit moves to the end.
  unfoldable pub cache_get : ℕ → Text → Cache V → Option V × Cache V
  unfolding purge_expired lookup remove
  cache_get now key c =
      let p = purge_expired now c in
      let left = remove key p.store in
      elim (lookup key p.store) [
        | none ↦ (none, p)
        | some (value, exp) ↦
            if leb exp now
            then (none, record p { store = left })
            else (some value, record p { store = left ++ (key, value, exp) ∷ [] })
      ]

  unfoldable pub cache_delete : Text → Cache V → Cache V
  unfolding remove
  cache_delete key c = record c { store = remove key c.store }

  -- `key in cache`: a lookup, which moves a hit to the end.
  unfoldable pub cache_contains : ℕ → Text → Cache V → Bool × Cache V
  unfolding cache_get
  cache_contains now key c =
      let (found, c') = cache_get now key c in (elim found [ none ↦ false | some value ↦ true ], c')

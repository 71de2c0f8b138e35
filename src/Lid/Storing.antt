-- ===== src/Lid/Storing.antt =====
-- `store_lid_pn_mappings` of wassupweb/signal/lid_mapping.py. The wrapping transaction of the key store
-- is left out.
use wassupweb.Prelude.{
  ℕ, Bool, false, ◌&&◌, ◌||◌, Option, none, some, List, [], ◌∷◌, if◌then◌else◌, Result, ◌>>=◌, ok,
  err,
}
use wassupweb.Text.{Text, text_eq}
use wassupweb.Locks.{update}
use wassupweb.Wabinary.Jid.{FullJid, jid_decode, is_lid_user, is_pn_user}
use wassupweb.Keys.KeyStore.{KeyStore, entry_of}
use wassupweb.Keys.Cacheable.{dict_of}
use wassupweb.Lid.{
  MappingCache, LidMappingStore, pn_key, reverse_key, lid_mapping, cache_get, cache_pair, truthy,
  dict_put, set_add,
}

-- `(jid_decode(jid) or {}).get("user")`
unfoldable pub user_of : Option FullJid → Text
user_of none = []
user_of (some j) = j.user

-- The users of both, if there are two.
unfoldable pub both_users : Text → Text → Option (Text × Text)
both_users [] lid_user = none
both_users (c ∷ pn_user) [] = none
both_users (c ∷ pn_user) (d ∷ lid_user) = some (c ∷ pn_user, d ∷ lid_user)

unfoldable pub is_pair : Text → Text → Bool
unfolding is_lid_user is_pn_user
is_pair lid pn =
    (is_lid_user (some lid) && is_pn_user (some pn))
    || (is_pn_user (some lid) && is_lid_user (some pn))

-- A pair of addresses as a pair of users: of the phone number and of the LID.
unfoldable pub users_of : Option Text → Option Text → Result (Option (Text × Text))
unfolding truthy is_pair both_users user_of
users_of lid pn = elim (truthy lid) [
  | none ↦ ok none
  | some l ↦ elim (truthy pn) [
    | none ↦ ok none
    | some p ↦
        if is_pair l p
        then (do
          lid_decoded ← jid_decode l
          pn_decoded ← jid_decode p
          ok (both_users (user_of pn_decoded) (user_of lid_decoded)))
        else ok none
  ]
]

with_some : {A : Type 0} → Option A → List A → List A
with_some none items = items
with_some (some x) items = x ∷ items

unfoldable pub validated_pairs : List (Option Text × Option Text) → Result (List (Text × Text))
unfolding users_of with_some
validated_pairs [] = ok []
validated_pairs ((lid, pn) ∷ pairs) = do
  first ← users_of lid pn
  rest ← validated_pairs pairs
  ok (with_some first rest)

-- What is known of the phone numbers, those that are not, and the cache.
pub record Known : Type 0 where
  pub existing : Text → Option Text
  pub misses : List Text
  pub cache : MappingCache

unfoldable pub note : Text → Option Text → Known → Known
unfolding update set_add
note pn_user none k = record k { misses = set_add pn_user k.misses }
note pn_user (some lid_user) k = record k { existing = update pn_user (some lid_user) k.existing }

unfoldable pub look_up : ℕ → ℕ → List (Text × Text) → Known → Known
unfolding note cache_get truthy pn_key
look_up ttl now [] k = k
look_up ttl now ((pn_user, lid_user) ∷ pairs) k =
    let (cached, cache) = cache_get ttl now (pn_key pn_user) k.cache in
    look_up ttl now pairs (note pn_user (truthy cached) (record k { cache = cache }))

-- What the key store had of the phone numbers that were not known.
unfoldable pub take_stored : ℕ → ℕ → Text → Option Text → Known → Known
unfolding update cache_pair
take_stored ttl now pn_user none k = k
take_stored ttl now pn_user (some lid_user) k = record k {
  existing = update pn_user (some lid_user) k.existing;
  cache = cache_pair ttl now pn_user lid_user k.cache;
}

unfoldable pub take_all : ℕ → ℕ → List (Text × Text) → List Text → Known → Known
unfolding take_stored truthy
take_all ttl now stored [] k = k
take_all ttl now stored (pn_user ∷ misses) k =
    take_all ttl now stored misses
      (take_stored ttl now pn_user (truthy (entry_of pn_user stored)) k)

-- `existing.get(pn_user) == lid_user`
unfoldable pub is_known : Option Text → Text → Bool
is_known none lid_user = false
is_known (some l) lid_user = text_eq l lid_user

unfoldable pub pair_map :
    (Text → Option Text) → List (Text × Text) → List (Text × Text) → List (Text × Text)
unfolding is_known dict_put
pair_map existing [] news = news
pair_map existing ((pn_user, lid_user) ∷ pairs) news =
    pair_map existing pairs
      (if is_known (existing pn_user) lid_user then news else dict_put pn_user lid_user news)

unfoldable pub batch_data :
    List (Text × Text) → List (Text × Option Text) → List (Text × Option Text)
unfolding dict_put reverse_key
batch_data [] batch = batch
batch_data ((pn_user, lid_user) ∷ news) batch =
    batch_data news
      (dict_put (reverse_key lid_user) (some pn_user) (dict_put pn_user (some lid_user) batch))

unfoldable pub cache_all : ℕ → ℕ → List (Text × Text) → MappingCache → MappingCache
unfolding cache_pair
cache_all ttl now [] cache = cache
cache_all ttl now ((pn_user, lid_user) ∷ news) cache =
    cache_all ttl now news (cache_pair ttl now pn_user lid_user cache)

module _ {S : Type 0} (store : KeyStore S Text) (ttl : ℕ) where
  unfoldable pub fill : ℕ → Known → S → Known
  unfolding take_all
  fill now k s = elim k.misses [
    | [] ↦ k
    | (pn_user ∷ misses) ↦
        take_all ttl now (store.get lid_mapping (pn_user ∷ misses) s) (pn_user ∷ misses) k
  ]

  -- The writing of the new pairs, if there are any.
  unfoldable pub write_news :
      ℕ → List (Text × Text) → MappingCache → S → Result (Unit {0}) × LidMappingStore S
  unfolding batch_data cache_all dict_of
  write_news now [] cache s = (ok tt, record { cache = cache; keys = s })
  write_news now (pair ∷ news) cache s =
      let (done, s') = store.set (dict_of ((lid_mapping, batch_data (pair ∷ news) []) ∷ [])) s in
      elim done [
        | ok u ↦ (ok tt, record { cache = cache_all ttl now (pair ∷ news) cache; keys = s' })
        | err e ↦ (err e, record { cache = cache; keys = s' })
      ]

  unfoldable pub store_pairs :
      ℕ → List (Text × Text) → LidMappingStore S → Result (Unit {0}) × LidMappingStore S
  unfolding look_up fill pair_map write_news
  store_pairs now pairs m =
      let k =
        look_up ttl now pairs (record { existing = λ pn. none; misses = []; cache = m.cache }) in
      let k' = fill now k m.keys in write_news now (pair_map k'.existing pairs []) k'.cache m.keys

  unfoldable pub store_lid_pn_mappings :
      ℕ
      → List (Option Text × Option Text)
      → LidMappingStore S
      → Result (Unit {0}) × LidMappingStore S
  unfolding validated_pairs store_pairs
  store_lid_pn_mappings now pairs m = elim (validated_pairs pairs) [
    | err e ↦ (err e, m)
    | ok validated ↦ store_pairs now validated m
  ]

-- ===== src/Keys/Cacheable.antt =====
-- wassupweb/utils/auth_utils.py: `make_cacheable_signal_key_store`. The store below and the clock are
-- arguments. The lock makes each of its uses one step; `get` has two of them.
pub mod Entries
pub mod Calls
pub mod Refines
use wassupweb.Prelude.{ℕ, ◌+◌, Option, none, some, List, [], ◌∷◌, ◌++◌, leb, if◌then◌else◌, Result}
use wassupweb.Text.{Text, text_eq}
use wassupweb.Locks.{update}
use wassupweb.Keys.{put_all}
use wassupweb.Keys.KeyStore.{DataSet, KeyStore, entry_of}

-- The key of an entry is the type, a dot and the id.
unfoldable pub cache_key : Text → Text → Text
cache_key key_type id = key_type ++ (b'.' ∷ id)

-- A value, or `None`, and the time at which it expires.
abbrev pub Entries : Type 0 → Type 0
Entries V = Text → Option (Option V × ℕ)

pub record CacheableStore (S V : Type 0) : Type 0 where
  pub entries : Entries V
  pub below : S

module _ {V : Type 0} where
  unfoldable pub unexpired : ℕ → Option (Option V × ℕ) → Option (Option V × ℕ)
  unexpired now none = none
  unexpired now (some (value, expiry)) = if leb expiry now then none else some (value, expiry)

  -- `_prune`
  unfoldable pub prune : ℕ → Entries V → Entries V
  unfolding unexpired
  prune now entries key = unexpired now (entries key)

  -- `result[item_id] = cache[key][0]`
  unfoldable pub note_value :
      Text → Option (Option V × ℕ) → (Text → Option (Option V)) → Text → Option (Option V)
  unfolding update
  note_value id none result = result
  note_value id (some (value, expiry)) result = update id (some value) result

  -- What the cache has of the ids, and the ids that it does not have.
  unfoldable pub found : Text → List Text → Entries V → Text → Option (Option V)
  unfolding note_value cache_key
  found key_type [] entries = λ id. none
  found key_type (x ∷ ids) entries =
      note_value x (entries (cache_key key_type x)) (found key_type ids entries)

  unfoldable pub missing : Text → List Text → Entries V → List Text
  unfolding cache_key
  missing key_type [] entries = []
  missing key_type (x ∷ ids) entries =
      let rest = missing key_type ids entries in
      elim (entries (cache_key key_type x)) [ none ↦ x ∷ rest | some entry ↦ rest ]

  -- `cache[f"{key_type}.{item_id}"] = (value, expiry)` for the items of one type.
  unfoldable pub put_values :
      {W : Type 0} → (W → Option V) → Text → List (Text × W) → ℕ → Entries V → Entries V
  unfolding update cache_key
  put_values value key_type [] expiry entries = entries
  put_values value key_type ((id, w) ∷ items) expiry entries =
      put_values value key_type items expiry
        (update (cache_key key_type id) (some (value w, expiry)) entries)

  unfoldable pub put_data : List (Text × List (Text × Option V)) → ℕ → Entries V → Entries V
  unfolding put_values
  put_data [] expiry entries = entries
  put_data ((key_type, values) ∷ data_set) expiry entries =
      put_data data_set expiry (put_values (λ v. v) key_type values expiry entries)

  -- The nested dictionary with these items.
  unfoldable pub dict_of : List (Text × List (Text × Option V)) → DataSet V
  unfolding entry_of text_eq
  dict_of [] key_type id = none
  dict_of ((t, values) ∷ data_set) key_type id = elim (dict_of data_set key_type id) [
    | some value ↦ some value
    | none ↦ if text_eq t key_type then entry_of id values else none
  ]

module _ {S V : Type 0} (k : KeyStore S V) (ttl : ℕ) where
  -- The second part of `get`, with what the store below answered.
  unfoldable pub end_get :
      ℕ
      → Text
      → List (Text × V)
      → (Text → Option (Option V))
      → Entries V
      → (Text → Option (Option V)) × Entries V
  unfolding put_all put_values
  end_get now key_type fetched result entries =
      (put_all fetched result, put_values some key_type fetched (now + ttl) entries)

  unfoldable pub load :
      ℕ
      → Text
      → List Text
      → (Text → Option (Option V))
      → Entries V
      → S
      → (Text → Option (Option V)) × Entries V
  unfolding end_get
  load later key_type [] result entries s = (result, entries)
  load later key_type (id ∷ ids) result entries s =
      end_get later key_type (k.get key_type (id ∷ ids) s) result entries

  -- `get`, which the store below keeps from `now` to `later`.
  unfoldable pub cached_get :
      ℕ
      → ℕ
      → Text
      → List Text
      → CacheableStore S V
      → (Text → Option (Option V)) × CacheableStore S V
  unfolding load found missing prune
  cached_get now later key_type ids c =
      let entries = prune now c.entries in
      let (result, entries') =
        load later key_type (missing key_type ids entries) (found key_type ids entries) entries
          c.below in
      (result, record c { entries = entries' })

  unfoldable pub cached_set :
      ℕ
      → List (Text × List (Text × Option V))
      → CacheableStore S V
      → Result (Unit {0}) × CacheableStore S V
  unfolding put_data dict_of
  cached_set now data_set c =
      let (done, s) = k.set (dict_of data_set) c.below in
      (done, record { entries = put_data data_set (now + ttl) c.entries; below = s })

  unfoldable pub cached_clear : CacheableStore S V → CacheableStore S V
  cached_clear c = record { entries = λ key. none; below = k.clear c.below }

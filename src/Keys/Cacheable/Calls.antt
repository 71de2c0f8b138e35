-- ===== src/Keys/Cacheable/Calls.antt =====
-- Runs of calls on the caching store, and on the store below it.
use wassupweb.Prelude.{
  ℕ, ◌≡◌, Bool, true, false, Option, none, some, List, [], ◌∷◌, Result, ok, err,
}
use wassupweb.Text.{Text}
use wassupweb.Keys.KeyStore.{KeyStore, entry_of, among}
use wassupweb.Keys.Cacheable.{CacheableStore, dict_of, cached_get, cached_set, cached_clear}
use wassupweb.Keys.Cacheable.Entries.{IsKeyType, HasKeyTypes}

-- A call of the store: the times at which a `get` starts and the store below has answered, the time
-- of a `set`.
pub data Call (V : Type 0) : Type 0 where
  get : ℕ → ℕ → Text → List Text → Call V
  set : ℕ → List (Text × List (Text × Option V)) → Call V
  clear : Call V

abbrev pub AsksTypes : {V : Type 0} → Call V → Type 0
AsksTypes (get now later key_type ids) = IsKeyType key_type
AsksTypes (set now data_set) = HasKeyTypes data_set
AsksTypes clear = Unit

-- `result.get(id)`: a missing entry and `None` are the same.
abbrev pub flat : {V : Type 0} → Option (Option V) → Option V
flat none = none
flat (some value) = value

-- Whether an entry is in doubt after a `set`, which was done or not: of what a failed one asked for
-- the cache has what was asked, and nobody knows what the store below has, until a `set` that is
-- done asks for it.
unfoldable pub doubt : {V : Type 0} → Bool → Option (Option V) → Bool → Bool
doubt true (some value) before = false
doubt true none before = before
doubt false (some value) before = true
doubt false none before = before

abbrev pub is_done : Result (Unit {0}) → Bool
is_done (ok u) = true
is_done (err e) = false

-- The entries that are in doubt, by type and id.
abbrev pub Doubts : Type 0
Doubts = Text → Text → Bool

module _ {S V : Type 0} (k : KeyStore S V) (ttl : ℕ) where
  -- The calls on the caching store go as the same calls on the store itself, whose states are `s`:
  -- every entry that is not in doubt is answered as the store answers it, every `set` returns or
  -- raises what the store does, also behind one that raised, and the store below is left in the same
  -- state.
  abbrev pub Serves : List (Call V) → CacheableStore S V → S → Doubts → Type 0
  Serves [] c s doubts = c.below ≡ s
  Serves (get now later key_type ids ∷ calls) c s doubts =
      ((id : Text)
        → among id ids ≡ true
        → doubts key_type id ≡ false
        → flat ((cached_get k ttl now later key_type ids c).0 id)
          ≡ entry_of id (k.get key_type ids s))
      × Serves calls (cached_get k ttl now later key_type ids c).1 s doubts
  Serves (set now data_set ∷ calls) c s doubts =
      ((cached_set k ttl now data_set c).0 ≡ (k.set (dict_of data_set) s).0)
      × Serves calls (cached_set k ttl now data_set c).1 (k.set (dict_of data_set) s).1
          (λ key_type id.
            doubt (is_done (k.set (dict_of data_set) s).0) (dict_of data_set key_type id)
              (doubts key_type id))
  Serves (clear ∷ calls) c s doubts =
      Serves calls (cached_clear k ttl c) (k.clear s) (λ key_type id. false)

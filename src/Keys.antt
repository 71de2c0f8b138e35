-- ===== src/Keys.antt =====
-- wassupweb/utils/pre_key_manager.py, and the store in memory of wassupweb/utils/auth_utils.py. A
-- dictionary of keys of one type is a function; a value that is `None` in it is `some none`. The locks
-- per type make each operation one step, and warnings are left out.
pub mod Deletion
pub mod KeyStore
pub mod Cacheable
pub mod Transactions
use wassupweb.Prelude.{
  ℕ, zero, suc, ◌+◌, ◌-◌, ◌*◌, ◌/◌, ◌%◌, ◌^◌, ◌≤◌, ◌<◌, min, max, bit_and, bit_or, String, ◌≡◌,
  refl, sym, ap, ◌∙◌, ◌≢◌, ◌↔◌, ◌⊎◌, inl, inr, Bool, true, false, not, ◌&&◌, ◌||◌, Option, none,
  some, List, [], ◌∷◌, ◌++◌, map, arith, ltb, leb, ◌==◌, if◌then◌else◌, ltb→lt, lt→ltb, le→ltb,
  ==_iff, Bool-cases, Option-cases, ltb→le, IsByte, Bytes, All, All-append, length, get_elem?, take,
  drop, replicate, length-append, length-take, length-drop, length-replicate, take-length-append,
  drop-length-append, drop-add, take-length, Exception, Result, ◌>>=◌, ◌>>◌, ok, err, value_error,
  runtime_error, type_error, index_error, struct_error, key_error, recursion_error,
}
use wassupweb.Text.{Text, text_eq}
use wassupweb.Locks.{update}

-- `InMemorySignalKeyStore`: what is stored under a type and an id.
abbrev pub Store : Type 0 → Type 0
Store V = Text → Text → Option V

-- The inner dictionaries of the type: the transaction's cache and its mutations.
pub record Transaction (V : Type 0) : Type 0 where
  pub cache : Text → Option (Option V)
  pub mutations : Text → Option (Option V)

module _ {V : Type 0} where
  -- `set` of one type: `None` takes the entry away.
  unfoldable pub store_set_values : Text → List (Text × Option V) → Store V → Store V
  unfolding update
  store_set_values key_type [] store = store
  store_set_values key_type ((id, value) ∷ values) store =
      store_set_values key_type values (update key_type (update id value (store key_type)) store)

  unfoldable pub store_set : List (Text × List (Text × Option V)) → Store V → Store V
  unfolding store_set_values
  store_set [] store = store
  store_set ((key_type, values) ∷ data_set) store =
      store_set data_set (store_set_values key_type values store)

  -- `get`: the ids that are there, in the order of the question.
  unfoldable pub store_get : Text → List Text → Store V → List (Text × V)
  store_get key_type [] store = []
  store_get key_type (id ∷ ids) store = elim (store key_type id) [
    | none ↦ store_get key_type ids store
    | some value ↦ (id, value) ∷ store_get key_type ids store
  ]

  -- The ids with `None` and the others.
  unfoldable pub deletions : List (Text × Option V) → List Text
  deletions [] = []
  deletions ((id, none) ∷ key_data) = id ∷ deletions key_data
  deletions ((id, some value) ∷ key_data) = deletions key_data

  unfoldable pub updates : List (Text × Option V) → List (Text × V)
  updates [] = []
  updates ((id, none) ∷ key_data) = updates key_data
  updates ((id, some value) ∷ key_data) = (id, value) ∷ updates key_data

  -- `dict.update`
  unfoldable pub put_all : List (Text × V) → (Text → Option (Option V)) → Text → Option (Option V)
  unfolding update
  put_all [] table = table
  put_all ((id, value) ∷ items) table = put_all items (update id (some (some value)) table)

  unfoldable pub delete : Text → Transaction V → Transaction V
  unfolding update
  delete id t = record {
    cache = update id (some none) t.cache;
    mutations = update id (some none) t.mutations;
  }

  -- `is not None`
  unfoldable pub is_present : Option (Option V) → Bool
  is_present (some (some value)) = true
  is_present _ = false

  -- `_process_deletions`: inside a transaction its cache decides, and else what the store had.
  unfoldable pub process_deletions :
      Bool → (Text → Option V) → List Text → Transaction V → Transaction V
  unfolding delete is_present
  process_deletions inside existing [] t = t
  process_deletions inside existing (id ∷ ids) t =
      let found = if inside then is_present (t.cache id) else is_present (some (existing id)) in
      let rest = process_deletions inside existing ids t in
      let deleted = process_deletions inside existing ids (delete id t) in
      if found then deleted else rest

  unfoldable pub process_operations :
      Bool → (Text → Option V) → List (Text × Option V) → Transaction V → Transaction V
  unfolding put_all deletions updates process_deletions
  process_operations inside existing key_data t =
      let items = updates key_data in
      process_deletions inside existing (deletions key_data)
        (record { cache = put_all items t.cache; mutations = put_all items t.mutations })

  -- `validate_deletions`: a deletion of what the store does not have leaves the data.
  unfoldable pub validate_deletions :
      (Text → Option V) → List (Text × Option V) → List (Text × Option V)
  validate_deletions existing [] = []
  validate_deletions existing ((id, some value) ∷ key_data) =
      (id, some value) ∷ validate_deletions existing key_data
  validate_deletions existing ((id, none) ∷ key_data) = elim (existing id) [
    | none ↦ validate_deletions existing key_data
    | some value ↦ (id, none) ∷ validate_deletions existing key_data
  ]

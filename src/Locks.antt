-- ===== src/Locks.antt =====
-- wassupweb/utils/make_mutex.py: `KeyedMutex`. Its dictionaries are functions; a lock is the number
-- under which it was made. `_guard` makes each of the two operations one step.
pub mod Exclusion
use wassupweb.Prelude.{
  ℕ, zero, suc, ◌+◌, ◌-◌, ◌*◌, ◌/◌, ◌%◌, ◌^◌, ◌≤◌, ◌<◌, min, max, bit_and, bit_or, String, ◌≡◌,
  refl, sym, ap, ◌∙◌, ◌≢◌, ◌↔◌, ◌⊎◌, inl, inr, Bool, true, false, not, ◌&&◌, ◌||◌, Option, none,
  some, List, [], ◌∷◌, ◌++◌, map, arith, ltb, leb, ◌==◌, if◌then◌else◌, ltb→lt, lt→ltb, le→ltb,
  ==_iff, Bool-cases, Option-cases, ltb→le, IsByte, Bytes, All, All-append, length, get_elem?, take,
  drop, replicate, length-append, length-take, length-drop, length-replicate, take-length-append,
  drop-length-append, drop-add, take-length, Exception, Result, ◌>>=◌, ◌>>◌, ok, err, value_error,
  runtime_error, type_error, index_error, struct_error, key_error, recursion_error,
}
use wassupweb.Text.{Text, text_eq}

pub record KeyedMutex : Type 0 where
  pub locks : Text → Option ℕ
  pub ref_count : Text → ℕ
  pub made : ℕ

-- `table[key] = value`, or `table.pop(key, None)` for the value of a missing key.
unfoldable pub update {ℓ} : {A : Type ℓ} → Text → A → (Text → A) → Text → A
update key value table k = if text_eq key k then value else table k

unfoldable pub make_keyed_mutex : KeyedMutex
make_keyed_mutex = record { locks = λ k. none; ref_count = λ k. 0; made = 0 }

-- The lock of the key, and the locks with it.
unfoldable pub lock_of : Text → KeyedMutex → ℕ × KeyedMutex
unfolding update
lock_of key m = elim (m.locks key) [
  | some lock ↦ (lock, m)
  | none ↦ (m.made, record m { locks = update key (some m.made) m.locks; made = m.made + 1 })
]

unfoldable pub get_lock : Text → KeyedMutex → ℕ × KeyedMutex
unfolding lock_of update
get_lock key m =
    let (lock, m') = lock_of key m in
    (lock, record m' { ref_count = update key (m.ref_count key + 1) m.ref_count })

-- The last user takes the lock away.
unfoldable pub release_lock : Text → KeyedMutex → KeyedMutex
unfolding update
release_lock key m =
    if leb (m.ref_count key) 1
    then record m { ref_count = update key 0 m.ref_count; locks = update key none m.locks }
    else record m { ref_count = update key (m.ref_count key - 1) m.ref_count }

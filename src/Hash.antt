-- ===== src/Hash.antt =====
-- wassupweb/utils/lt_hash.py: the hash of the app state, which values are taken out of and added to.
-- SHA-512 is a parameter.
pub mod Laws
use wassupweb.Prelude.{
  ℕ, zero, suc, ◌+◌, ◌-◌, ◌*◌, ◌/◌, ◌%◌, ◌^◌, ◌≤◌, ◌<◌, min, max, bit_and, bit_or, String, ◌≡◌,
  refl, sym, ap, ◌∙◌, ◌≢◌, ◌↔◌, ◌⊎◌, inl, inr, Bool, true, false, not, ◌&&◌, ◌||◌, Option, none,
  some, List, [], ◌∷◌, ◌++◌, map, arith, ltb, leb, ◌==◌, if◌then◌else◌, ltb→lt, lt→ltb, le→ltb,
  ==_iff, Bool-cases, Option-cases, ltb→le, IsByte, Bytes, All, All-append, length, get_elem?, take,
  drop, replicate, length-append, length-take, length-drop, length-replicate, take-length-append,
  drop-length-append, drop-add, take-length, Exception, Result, ◌>>=◌, ◌>>◌, Result-cases,
  >>=-eq-ok, ok-injective, ok, err, value_error, runtime_error, type_error, index_error,
  struct_error, key_error, recursion_error,
}

-- The digest's length, and that it has bytes only.
pub record IsSha512 (sha512 : Bytes → Bytes) : Type 0 where
  pub size : (message : Bytes) → length (sha512 message) ≡ 64
  pub in_range : (message : Bytes) → All IsByte (sha512 message)

abbrev pub hash_size : ℕ
hash_size = 128

-- `(state[idx] - expanded[idx]) & 0xFF` and its counterpart, on bytes.
unfoldable pub sub_byte : ℕ → ℕ → ℕ
sub_byte s e = (s + 256 - e) % 256

unfoldable pub add_byte : ℕ → ℕ → ℕ
add_byte s e = (s + e) % 256

-- One operation on every byte.
unfoldable pub mix : (ℕ → ℕ → ℕ) → Bytes → Bytes → Bytes
mix f [] expanded = []
mix f (s ∷ state) [] = s ∷ state
mix f (s ∷ state) (e ∷ expanded) = f s e ∷ mix f state expanded

-- The current hash, cut or filled to 128 bytes.
unfoldable pub base : Bytes → Bytes
base current =
    if ltb (length current) hash_size
    then current ++ replicate (hash_size - length current) 0
    else if ltb hash_size (length current)
    then take hash_size current
    else current

module _ (sha512 : Bytes → Bytes) where
  unfoldable pub expand_value : Bytes → Bytes
  expand_value value = sha512 value ++ sha512 (value ++ 1 ∷ [])

  unfoldable pub subtract_values : List Bytes → Bytes → Bytes
  unfolding mix expand_value sub_byte
  subtract_values [] state = state
  subtract_values (v ∷ values) state = subtract_values values (mix sub_byte state (expand_value v))

  unfoldable pub add_values : List Bytes → Bytes → Bytes
  unfolding mix expand_value add_byte
  add_values [] state = state
  add_values (v ∷ values) state = add_values values (mix add_byte state (expand_value v))

  unfoldable pub subtract_then_add : Bytes → List Bytes → List Bytes → Bytes
  unfolding base subtract_values add_values
  subtract_then_add current subtract add = add_values add (subtract_values subtract (base current))

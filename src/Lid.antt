-- ===== src/Lid.antt =====
-- wassupweb/signal/lid_mapping.py: `LIDMappingStore`. The key store below it and the query of the
-- server are arguments; an operation reads the clock once, in milliseconds. Lookups that are in
-- flight are not shared, and the log is left out.
pub mod Storing
pub mod Lookup
pub mod Queries
pub mod Loops
pub mod Found
use wassupweb.Prelude.{
  ℕ, zero, suc, ◌+◌, ◌-◌, ◌*◌, ◌/◌, ◌%◌, ◌^◌, ◌≤◌, ◌<◌, min, max, bit_and, bit_or, String, ◌≡◌,
  refl, sym, ap, ◌∙◌, ◌≢◌, ◌↔◌, ◌⊎◌, inl, inr, Bool, true, false, not, ◌&&◌, ◌||◌, Option, none,
  some, List, [], ◌∷◌, ◌++◌, map, arith, ltb, leb, ◌==◌, if◌then◌else◌, ltb→lt, lt→ltb, le→ltb,
  ==_iff, Bool-cases, Option-cases, ltb→le, IsByte, Bytes, All, All-append, length, get_elem?, take,
  drop, replicate, length-append, length-take, length-drop, length-replicate, take-length-append,
  drop-length-append, drop-add, take-length, Exception, Result, ◌>>=◌, ◌>>◌, ok, err, value_error,
  runtime_error, type_error, index_error, struct_error, key_error, recursion_error, Result-cases,
  >>=-eq-ok, ok-injective, overflow_error,
}
use wassupweb.Text.{Text, ascii, text_eq}
use wassupweb.Locks.{update}

-- `_mapping_cache`: a value and the time at which it expires.
abbrev pub MappingCache : Type 0
MappingCache = Text → Option (Text × ℕ)

pub record LidMappingStore (S : Type 0) : Type 0 where
  pub cache : MappingCache
  pub keys : S

-- `f"pn:{user}"` and `f"lid:{user}"`
unfoldable pub pn_key : Text → Text
pn_key user = b'p' ∷ b'n' ∷ b':' ∷ user

unfoldable pub lid_key : Text → Text
lid_key user = b'l' ∷ b'i' ∷ b'd' ∷ b':' ∷ user

-- `f"{lid_user}_reverse"`
unfoldable pub reverse_key : Text → Text
reverse_key user = user ++ ascii "_reverse"

abbrev pub lid_mapping : Text
lid_mapping = ascii "lid-mapping"

-- An entry that is there and has not expired gets a new time.
unfoldable pub renewed : ℕ → ℕ → Option (Text × ℕ) → Option (Text × ℕ)
renewed ttl now none = none
renewed ttl now (some (value, expires_at)) =
    if leb expires_at now then none else some (value, now + ttl)

unfoldable pub value_in : Option (Text × ℕ) → Option Text
value_in none = none
value_in (some (value, expires_at)) = some value

-- `_cache_get`: an expired entry is taken away.
unfoldable pub cache_get : ℕ → ℕ → Text → MappingCache → Option Text × MappingCache
unfolding renewed value_in update
cache_get ttl now key cache =
    let entry = renewed ttl now (cache key) in (value_in entry, update key entry cache)

unfoldable pub cache_set : ℕ → ℕ → Text → Text → MappingCache → MappingCache
unfolding update
cache_set ttl now key value cache = update key (some (value, now + ttl)) cache

-- Both directions of a pair.
unfoldable pub cache_pair : ℕ → ℕ → Text → Text → MappingCache → MappingCache
unfolding cache_set pn_key lid_key
cache_pair ttl now pn_user lid_user cache =
    cache_set ttl now (lid_key lid_user) pn_user (cache_set ttl now (pn_key pn_user) lid_user cache)

-- `None` and "" are false.
unfoldable pub truthy : Option Text → Option Text
truthy none = none
truthy (some []) = none
truthy (some (c ∷ s)) = some (c ∷ s)

-- `d[key] = value` on a dictionary in the order of its keys.
unfoldable pub dict_put : {A : Type 0} → Text → A → List (Text × A) → List (Text × A)
dict_put key value [] = (key, value) ∷ []
dict_put key value ((k, v) ∷ items) =
    let rest = dict_put key value items in
    if text_eq k key then (k, value) ∷ items else (k, v) ∷ rest

-- `s.add(key)` on a set in the order of its elements.
unfoldable pub set_add : Text → List Text → List Text
set_add key [] = key ∷ []
set_add key (k ∷ items) =
    let rest = set_add key items in if text_eq k key then k ∷ items else k ∷ rest

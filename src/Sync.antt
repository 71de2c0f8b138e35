-- ===== src/Sync.antt =====
-- wassupweb/utils/chat_utils.py: the state of the app that devices share, as patches that carry
-- mutations under MACs. The base64 form of an id or a MAC is modelled by its bytes. JSON, AES, HMAC
-- and the external patches are parameters. What a message's fields hold is bytes, or missing.
pub mod Macs
pub mod Encode
pub mod Decode
pub mod Totals
pub mod Sealed
pub mod Accepted
pub mod Synced
pub mod RoundTrip
pub mod Delivery
pub mod Checked
use wassupweb.Prelude.{
  ℕ, zero, suc, ◌+◌, ◌-◌, ◌*◌, ◌/◌, ◌%◌, ◌^◌, ◌≤◌, ◌<◌, min, max, bit_and, bit_or, String, ◌≡◌,
  refl, sym, ap, ◌∙◌, ◌≢◌, ◌↔◌, ◌⊎◌, inl, inr, Bool, true, false, not, ◌&&◌, ◌||◌, Option, none,
  some, List, [], ◌∷◌, ◌++◌, map, arith, ltb, leb, ◌==◌, if◌then◌else◌, ltb→lt, lt→ltb, le→ltb,
  ==_iff, Bool-cases, Option-cases, ltb→le, IsByte, Bytes, All, All-append, length, get_elem?, take,
  drop, replicate, length-append, length-take, length-drop, length-replicate, take-length-append,
  drop-length-append, drop-add, take-length, Exception, Result, ◌>>=◌, ◌>>◌, ok, err, value_error,
  runtime_error, type_error, index_error, struct_error, key_error, recursion_error, ok-injective,
  overflow_error, Result-cases, >>=-eq-ok,
}
use wassupweb.Text.{Text, text_eq}
use wassupweb.Hash.{hash_size, subtract_then_add}

pub record LtHashState : Type 0 where
  pub version : ℕ
  pub hash : Bytes
  -- the MAC of an index, and the MAC of the value that was set under it last
  pub index_value_map : List (Bytes × Bytes)

-- `new_lthash_state`
abbrev pub new_lthash_state : LtHashState
new_lthash_state = record { version = 0; hash = replicate hash_size 0; index_value_map = [] }

unfoldable pub mac_of : Bytes → List (Bytes × Bytes) → Option Bytes
mac_of key [] = none
mac_of key ((k, v) ∷ items) = if text_eq k key then some v else mac_of key items

-- `index_value_map[key] = ...`
unfoldable pub put_mac : Bytes → Bytes → List (Bytes × Bytes) → List (Bytes × Bytes)
put_mac key value [] = (key, value) ∷ []
put_mac key value ((k, v) ∷ items) =
    let rest = put_mac key value items in
    if text_eq k key then (k, value) ∷ items else (k, v) ∷ rest

-- `index_value_map.pop(key, None)`
unfoldable pub pop_mac : Bytes → List (Bytes × Bytes) → List (Bytes × Bytes)
pop_mac key [] = []
pop_mac key ((k, v) ∷ items) =
    let rest = pop_mac key items in if text_eq k key then items else (k, v) ∷ rest

abbrev pub op_set : ℕ
op_set = 1

abbrev pub op_remove : ℕ
op_remove = 2

-- What the closures of `make_lt_hash_generator` share.
pub record Generator : Type 0 where
  pub current_hash : Bytes
  pub index_value_map : List (Bytes × Bytes)
  pub add_values : List Bytes
  pub sub_values : List Bytes

-- `state.get("hash") or b"\x00" * 128`
unfoldable pub hash_or_zeros : Bytes → Bytes
hash_or_zeros [] = replicate hash_size 0
hash_or_zeros (b ∷ hash) = b ∷ hash

unfoldable pub make_lt_hash_generator : LtHashState → Generator
unfolding hash_or_zeros
make_lt_hash_generator state = record {
  current_hash = hash_or_zeros state.hash;
  index_value_map = state.index_value_map;
  add_values = [];
  sub_values = [];
}

unfoldable pub set_value : Bytes → Bytes → Generator → Generator
unfolding put_mac
set_value index_mac value_mac g = record g {
  add_values = g.add_values ++ value_mac ∷ [];
  index_value_map = put_mac index_mac value_mac g.index_value_map;
}

unfoldable pub take_out : Option Bytes → Generator → Generator
take_out none g = g
take_out (some prev) g = record g { sub_values = g.sub_values ++ prev ∷ [] }

-- `mix`
unfoldable pub mix_mac : Bytes → Bytes → ℕ → Generator → Result Generator
unfolding mac_of pop_mac set_value take_out
mix_mac index_mac value_mac operation g =
    let prev = mac_of index_mac g.index_value_map in
    if operation == op_remove
    then (elim prev [
      | none ↦ err (value_error "tried remove, but no previous op")
      | some value ↦ ok (
          take_out (some value)
            (record g { index_value_map = pop_mac index_mac g.index_value_map }))
    ])
    else ok (take_out prev (set_value index_mac value_mac g))

-- `finish`, as the state with a new hash and a new map
unfoldable pub finish : (Bytes → Bytes) → ℕ → Generator → LtHashState
unfolding subtract_then_add
finish sha512 version g = record {
  version = version;
  hash = subtract_then_add sha512 g.current_hash g.sub_values g.add_values;
  index_value_map = g.index_value_map;
}

-- ===== src/Sync/Synced.antt =====
-- The states that the decoders and `encode_syncd_patch` of wassupweb/utils/chat_utils.py lead to.
use wassupweb.Prelude.{
  ℕ, suc, ◌≡◌, refl, sym, ap, inl, inr, Bool, false, Option, none, some, List, [], ◌∷◌, ◌==◌,
  Bool-cases, Option-cases, Bytes, Result, ok, ok-injective, >>=-eq-ok,
}
use wassupweb.Text.{Text, text_eq}
use wassupweb.Retry.Lookup.{text_eq_refl}
use wassupweb.Crypto.{Primitives}
use wassupweb.Hash.{IsSha512}
use wassupweb.Sync.{
  LtHashState, Generator, new_lthash_state, make_lt_hash_generator, mix_mac, finish, op_set,
  op_remove, put_mac, set_value, take_out, mac_of,
}
use wassupweb.Sync.Macs.{
  Digests, MutationKeys, mutation_keys, aes_encrypt, generate_mac, generate_snapshot_mac,
  generate_patch_mac,
}
use wassupweb.Sync.Encode.{
  Json, Mutation, SyncdPatch, PatchCreate, or_else, key_named, encode_syncd_patch, encode_with,
  patch_for, action_of,
}
use wassupweb.Sync.Decode.{Snapshot, MutationMap, decode_syncd_snapshot, decode_patches}
use wassupweb.Sync.Sealed.{
  IsSealed, new_lthash_state-IsSealed, make_lt_hash_generator-IsBalanced, finish-IsSealed,
  mix_mac-IsBalanced,
}
use wassupweb.Sync.Accepted.{decode_syncd_snapshot-IsSealed, decode_patches-IsSealed}

module _ (key value : Bytes) where
  put-put :
      (items : List (Bytes × Bytes))
      → put_mac key value (put_mac key value items) ≡ put_mac key value items
  unfolding put_mac
  put-put [] = rw (text_eq_refl key) refl
  put-put ((k, v) ∷ items) = elim (Bool-cases (text_eq k key)) [
    | inl same ↦ rw (same, same) refl
    | inr other ↦ rw (other, other, put-put items) refl
  ]

  -- The entry that `encode_syncd_patch` writes behind the generator is there already.
  pub put-mix_mac :
      (operation : ℕ) (g g' : Generator)
      → operation == op_remove ≡ false
      → mix_mac key value operation g ≡ ok g'
      → put_mac key value g'.index_value_map ≡ g'.index_value_map
  unfolding mix_mac set_value
  put-mix_mac operation g g' set e =
      let map_of = taken (mac_of key g.index_value_map) (set_value key value g) in
      let same : ok (take_out (mac_of key g.index_value_map) (set_value key value g)) ≡ ok g' =
        cc in
      rw (sym (ok-injective same), map_of) (put-put g.index_value_map)
    where
      taken :
          (prev : Option Bytes) (g : Generator)
          → (take_out prev g).index_value_map ≡ g.index_value_map
      taken none g = refl
      taken (some v) g = refl

module _ {V B : Type 0} (p : Primitives) (h : Digests) (json : Json V)
    (get_key : Bytes → Option Bytes) (download : B → Result (List Mutation)) where
  -- One way to a state: a new one, a snapshot, patches, and patches that are sent. A patch that is
  -- sent sets a value.
  pub data Synced : LtHashState → Type 0 where
    begun : Synced new_lthash_state
    restored :
        (name : Text) (snapshot : Snapshot) (minimum : Option ℕ) (validate_macs : Bool)
        (s : LtHashState) (found : MutationMap V)
        → decode_syncd_snapshot p h json get_key name snapshot minimum validate_macs ≡ ok (s, found)
        → Synced s
    patched :
        (name : Text) (syncds : List (SyncdPatch B)) (minimum : Option ℕ) (validate_macs : Bool)
        (s s' : LtHashState) (found : MutationMap V)
        → Synced s
        → decode_patches p h json get_key download name syncds s minimum validate_macs
          ≡ ok (s', found)
        → Synced s'
    sent :
        (c : PatchCreate V) (key_id iv : Bytes) (s s' : LtHashState) (patch : SyncdPatch B)
        → Synced s
        → or_else op_set c.operation == op_remove ≡ false
        → encode_syncd_patch p h json c key_id iv s get_key ≡ ok (patch, s')
        → Synced s'

module _ {V : Type 0} (p : Primitives) (h : Digests) (d : IsSha512 h.sha512) (json : Json V)
    (get_key : Bytes → Option Bytes) where
  patch_for_state :
      {B : Type 0} (c : PatchCreate V) (operation : ℕ) (key_id : Bytes) (keys : MutationKeys)
      (enc_value value_mac index_mac : Bytes) (current : LtHashState)
      (r : SyncdPatch B × LtHashState)
      → patch_for p h json c operation key_id keys enc_value value_mac index_mac current ≡ ok r
      → r.1
        ≡ record current { index_value_map = put_mac index_mac value_mac current.index_value_map }
  unfolding patch_for
  patch_for_state c operation key_id keys enc_value value_mac index_mac current r e =
      let (snapshot_mac, _, e1) =
        >>=-eq-ok
          (generate_snapshot_mac p current.hash current.version c.patch_type keys.snapshot_mac_key)
          _ e in
      let (patch_mac, _, e2) =
        >>=-eq-ok
          (generate_patch_mac p snapshot_mac (value_mac ∷ []) current.version c.patch_type
            keys.patch_mac_key)
          _ e1 in
      sym (ap (λ x. x.1) (ok-injective e2))

  encode_with-IsSealed :
      {B : Type 0} (c : PatchCreate V) (operation : ℕ) (key_id : Bytes) (keys : MutationKeys)
      (iv : Bytes) (state : LtHashState) (r : SyncdPatch B × LtHashState)
      → operation == op_remove ≡ false
      → encode_with p h json c operation key_id keys iv state ≡ ok r
      → IsSealed h.sha512 state
      → IsSealed h.sha512 r.1
  unfolding encode_with IsSealed finish
  encode_with-IsSealed c operation key_id keys iv state r set e sealed =
      let index_mac = p.hmac_sha256 keys.index_key (json.compact_index c.index) in
      let (enc_value, _, e1) =
        >>=-eq-ok (aes_encrypt p iv (json.dumps (action_of c)) keys.value_encryption_key) _ e in
      let (value_mac, _, e2) =
        >>=-eq-ok (generate_mac h operation enc_value key_id keys.value_mac_key) _ e1 in
      let (g, mixed, e3) =
        >>=-eq-ok (mix_mac index_mac value_mac operation (make_lt_hash_generator state)) _ e2 in
      let balanced =
        mix_mac-IsBalanced h.sha512 d index_mac value_mac operation (make_lt_hash_generator state) g
          mixed (make_lt_hash_generator-IsBalanced h.sha512 d state sealed) in
      let written =
        patch_for_state c operation key_id keys enc_value value_mac index_mac
          (finish h.sha512 (suc state.version) g) r e3 in
      let kept =
        put-mix_mac index_mac value_mac operation (make_lt_hash_generator state) g set mixed in
      rw (written, kept) (finish-IsSealed h.sha512 d (suc state.version) g balanced)

  encode_syncd_patch-IsSealed :
      {B : Type 0} (c : PatchCreate V) (key_id iv : Bytes) (state : LtHashState)
      (r : SyncdPatch B × LtHashState)
      → or_else op_set c.operation == op_remove ≡ false
      → encode_syncd_patch p h json c key_id iv state get_key ≡ ok r
      → IsSealed h.sha512 state
      → IsSealed h.sha512 r.1
  unfolding encode_syncd_patch
  encode_syncd_patch-IsSealed c key_id iv state r set e sealed =
      elim (Option-cases (key_named get_key key_id)) [
        | inl none_there ↦ absurd (cc)
        | inr (key_data, there) ↦
            encode_with-IsSealed c (or_else op_set c.operation) key_id (mutation_keys h key_data) iv
              state r set (cc) sealed
      ]

  -- In every state that a new one, snapshots, patches and sent patches that set values lead to, the
  -- hash is what the value MACs of the map add to the empty hash, whether or not MACs are checked.
  pub Synced-IsSealed :
      {B : Type 0} (download : B → Result (List Mutation)) (s : LtHashState)
      → Synced p h json get_key download s
      → IsSealed h.sha512 s
  Synced-IsSealed download s begun = new_lthash_state-IsSealed h.sha512 d 0
  Synced-IsSealed download s (restored name snapshot minimum validate_macs _ found e) =
      decode_syncd_snapshot-IsSealed p h d json get_key name snapshot minimum validate_macs
        (s, found) e
  Synced-IsSealed download s' (patched name syncds minimum validate_macs s _ found before e) =
      decode_patches-IsSealed p h d json get_key download name minimum validate_macs syncds s
        (s', found) e (Synced-IsSealed download s before)
  Synced-IsSealed download s' (sent c key_id iv s _ patch before set e) =
      encode_syncd_patch-IsSealed c key_id iv s (patch, s') set e
        (Synced-IsSealed download s before)

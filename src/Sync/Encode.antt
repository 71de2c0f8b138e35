-- ===== src/Sync/Encode.antt =====
-- `encode_syncd_patch` of wassupweb/utils/chat_utils.py. JSON is a parameter.
use wassupweb.Prelude.{
  ℕ, suc, Bool, true, Option, none, some, List, [], ◌∷◌, ◌++◌, Bytes, Result, ◌>>=◌, ok, err,
  value_error,
}
use wassupweb.Text.{Text}
use wassupweb.Crypto.{Primitives}
use wassupweb.Sync.{LtHashState, make_lt_hash_generator, mix_mac, finish, put_mac, op_set}
use wassupweb.Sync.Macs.{
  Digests, MutationKeys, mutation_keys, generate_mac, generate_snapshot_mac, generate_patch_mac,
  aes_encrypt,
}

-- What a mutation says: `{"index": index, "value": value, "version": version}`. A key of a read one
-- may be missing.
pub record Action (V : Type 0) : Type 0 where
  pub index : Option (List Text)
  pub value : Option V
  pub version : Option ℕ

-- `json.dumps` of an index, with and without spaces, and of an action, and `json.loads` with the
-- hook for bytes.
pub record Json (V : Type 0) : Type 0 where
  pub compact_index : List Text → Bytes
  pub spaced_index : List Text → Text
  pub dumps : Action V → Bytes
  pub loads : Bytes → Result (Action V)

-- `in_record` tells that the other fields stand in `mutation["record"]`; else they stand in the
-- mutation itself, as in a snapshot.
pub record Mutation : Type 0 where
  pub in_record : Bool
  pub operation : Option ℕ
  pub index_blob : Option Bytes
  pub value_blob : Option Bytes
  pub key_id : Option Bytes

-- `B` is a reference to mutations that are kept elsewhere.
pub record SyncdPatch (B : Type 0) : Type 0 where
  pub patch_mac : Option Bytes
  pub snapshot_mac : Option Bytes
  pub key_id : Option Bytes
  pub version : Option ℕ
  pub mutations : List Mutation
  pub external_mutations : Option B

pub record PatchCreate (V : Type 0) : Type 0 where
  pub index : List Text
  pub sync_action : V
  pub operation : Option ℕ
  pub api_version : Option ℕ
  pub patch_type : Text

-- `d.get(key, default)`
unfoldable pub or_else : {A : Type 0} → A → Option A → A
or_else default none = default
or_else default (some x) = x

-- The key that a caller has under an id, by the bytes of the id. No id names a key.
unfoldable pub key_named : (Bytes → Option Bytes) → Bytes → Option Bytes
key_named get_key [] = none
key_named get_key (b ∷ key_id) = get_key (b ∷ key_id)

unfoldable pub action_of : {V : Type 0} → PatchCreate V → Action V
unfolding or_else
action_of c = record {
  index = some c.index;
  value = some c.sync_action;
  version = some (or_else 1 c.api_version);
}

module _ {V B : Type 0} (p : Primitives) (h : Digests) (json : Json V) where
  -- The patch and the state that goes with it.
  unfoldable pub patch_for :
      PatchCreate V
      → ℕ
      → Bytes
      → MutationKeys
      → Bytes
      → Bytes
      → Bytes
      → LtHashState
      → Result (SyncdPatch B × LtHashState)
  unfolding generate_snapshot_mac generate_patch_mac put_mac
  patch_for c operation key_id keys enc_value value_mac index_mac current = do
    snapshot_mac ←
        generate_snapshot_mac p current.hash current.version c.patch_type keys.snapshot_mac_key
    patch_mac ←
        generate_patch_mac p snapshot_mac (value_mac ∷ []) current.version c.patch_type
          keys.patch_mac_key
    ok (
      record {
        patch_mac = some patch_mac;
        snapshot_mac = some snapshot_mac;
        key_id = some key_id;
        version = some current.version;
        mutations =
            record {
              in_record = true;
              operation = some operation;
              index_blob = some index_mac;
              value_blob = some (enc_value ++ value_mac);
              key_id = some key_id;
            }
            ∷ [];
        external_mutations = none;
      },
      record current { index_value_map = put_mac index_mac value_mac current.index_value_map },
    )

  unfoldable pub encode_with :
      PatchCreate V
      → ℕ
      → Bytes
      → MutationKeys
      → Bytes
      → LtHashState
      → Result (SyncdPatch B × LtHashState)
  unfolding aes_encrypt generate_mac action_of make_lt_hash_generator mix_mac finish patch_for
  encode_with c operation key_id keys iv state =
      let index_mac = p.hmac_sha256 keys.index_key (json.compact_index c.index) in
      do
        enc_value ← aes_encrypt p iv (json.dumps (action_of c)) keys.value_encryption_key
        value_mac ← generate_mac h operation enc_value key_id keys.value_mac_key
        generator ← mix_mac index_mac value_mac operation (make_lt_hash_generator state)
        patch_for c operation key_id keys enc_value value_mac index_mac
            (finish h.sha512 (suc state.version) generator)

  -- `encode_syncd_patch`, whose initialisation vector is an argument
  unfoldable pub encode_syncd_patch :
      PatchCreate V
      → Bytes
      → Bytes
      → LtHashState
      → (Bytes → Option Bytes)
      → Result (SyncdPatch B × LtHashState)
  unfolding encode_with key_named mutation_keys or_else
  encode_syncd_patch c key_id iv state get_key = elim (key_named get_key key_id) [
    | none ↦ err (value_error "myAppStateKey not present")
    | some key_data ↦
        encode_with c (or_else op_set c.operation) key_id (mutation_keys h key_data) iv state
  ]

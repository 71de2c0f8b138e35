-- ===== src/Sync/Delivery.antt =====
-- `decode_patches` of wassupweb/utils/chat_utils.py on a patch of `encode_syncd_patch`.
use wassupweb.Prelude.{
  suc, ◌≡◌, refl, sym, ap, ◌∙◌, inl, inr, true, false, Option, none, some, List, [], ◌∷◌, ◌==◌,
  Option-cases, Bytes, length, Result, ok, ok-injective, >>=-eq-ok,
}
use wassupweb.Crypto.{Primitives, IsCipher}
use wassupweb.Sync.{LtHashState, make_lt_hash_generator, mix_mac, finish, op_set, op_remove}
use wassupweb.Sync.Macs.{
  Digests, AreDigests, mutation_keys, aes_encrypt, generate_mac, length-generate_mac,
  generate_snapshot_mac, generate_patch_mac,
}
use wassupweb.Sync.Encode.{
  Json, Mutation, SyncdPatch, PatchCreate, or_else, key_named, encode_syncd_patch, encode_with,
  patch_for, action_of,
}
use wassupweb.Sync.Decode.{
  MutationMap, value_macs, keys_for, on_mutation, decode_each, decode_syncd_mutations, check_patch,
  decode_syncd_patch, check_state, with_external, decode_one, decode_all, decode_patches, is_wanted,
}
use wassupweb.Sync.Synced.{put-mix_mac}
use wassupweb.Sync.RoundTrip.{Sent, mutation_of, opened, key_named_lem, check_mac_lem, mac_in_lem}

module _ {V B : Type 0} (p : Primitives) (h : Digests) (json : Json V)
    (get_key : Bytes → Option Bytes) (download : B → Result (List Mutation)) (c : PatchCreate V)
    (key_id key_data iv : Bytes) (state : LtHashState)
    (r : Sent p h json get_key c (or_else op_set c.operation) key_id key_data iv state) where
  abbrev current_of : LtHashState
  current_of = finish h.sha512 (suc state.version) r.generator

  abbrev patch_of : Bytes → Bytes → SyncdPatch B
  patch_of snapshot_mac patch_mac = record {
    patch_mac = some patch_mac;
    snapshot_mac = some snapshot_mac;
    key_id = some key_id;
    version = some (suc state.version);
    mutations =
        mutation_of p h json get_key c (or_else op_set c.operation) key_id key_data iv state r ∷ [];
    external_mutations = none;
  }

  abbrev found_of : MutationMap V
  found_of = (json.spaced_index c.index, action_of c) ∷ []

  module _ (keyed : get_key key_id ≡ some key_data) (cipher : IsCipher p) (digests : AreDigests h)
      (size : length iv ≡ 16) (reads : json.loads (json.dumps (action_of c)) ≡ ok (action_of c))
      (snapshot_mac patch_mac : Bytes)
      (state_signed : generate_snapshot_mac p
          (current_of).hash
          (suc state.version)
          c.patch_type
          (mutation_keys h key_data).snapshot_mac_key
        ≡ ok snapshot_mac)
      (patch_signed : generate_patch_mac p snapshot_mac
          (r.value_mac ∷ [])
          (suc state.version)
          c.patch_type
          (mutation_keys h key_data).patch_mac_key
        ≡ ok patch_mac) where
    full : length r.value_mac ≡ 32
    full =
        length-generate_mac h (or_else op_set c.operation) r.enc_value key_id
          (mutation_keys h key_data).value_mac_key r.value_mac digests r.signed

    accepted : check_patch p h json get_key c.patch_type (patch_of snapshot_mac patch_mac) ≡ ok tt
    unfolding check_patch keys_for value_macs or_else
    accepted =
        rw (check_patch, keys_for, keyed, mac_in_lem r.enc_value r.value_mac full)
          (check_mac_lem _ patch_mac "Invalid patch mac" patch_signed)

    verified : check_state p h json get_key c.patch_type key_id snapshot_mac current_of ≡ ok tt
    unfolding check_state keys_for finish
    verified =
        rw (check_state, keys_for, keyed)
          (check_mac_lem _ snapshot_mac "failed to verify LTHash" state_signed)

    decoded_each :
        decode_each p h json get_key true true
          (patch_of snapshot_mac patch_mac).mutations
          (make_lt_hash_generator state, [])
        ≡ ok (r.generator, found_of)
    unfolding decode_each on_mutation or_else action_of
    decoded_each =
        rw
          (
            decode_each,
            opened p h json get_key c (or_else op_set c.operation) key_id key_data iv state r keyed
                cipher digests size reads,
            mac_in_lem r.enc_value r.value_mac full,
            r.mixed,
          )
          refl

    decoded_one :
        decode_one p h json get_key download c.patch_type none true
          (patch_of snapshot_mac patch_mac)
          (state, [])
        ≡ ok (current_of, found_of)
    unfolding decode_one decode_syncd_patch decode_syncd_mutations is_wanted or_else
        make_lt_hash_generator finish
    decoded_one = rw (decode_one, decode_syncd_patch, accepted, decoded_each, verified) refl

    decoded_all :
        decode_patches p h json get_key download c.patch_type
          (patch_of snapshot_mac patch_mac ∷ [])
          state
          none
          true
        ≡ ok (current_of, found_of)
    unfolding decode_patches decode_all with_external
    decoded_all = rw (decode_patches, decode_all, decoded_one) refl

  -- The patch with its MACs, and the state that goes with it.
  decoded_patch :
      (patch : SyncdPatch B) (s : LtHashState)
      → get_key key_id ≡ some key_data
      → IsCipher p
      → AreDigests h
      → length iv ≡ 16
      → json.loads (json.dumps (action_of c)) ≡ ok (action_of c)
      → or_else op_set c.operation == op_remove ≡ false
      → patch_for p h json c
          (or_else op_set c.operation)
          key_id
          (mutation_keys h key_data)
          r.enc_value
          r.value_mac
          (p.hmac_sha256 (mutation_keys h key_data).index_key (json.compact_index c.index))
          current_of
        ≡ ok (patch, s)
      → decode_patches p h json get_key download c.patch_type (patch ∷ []) state none true
        ≡ ok (s, found_of)
  unfolding patch_for finish
  decoded_patch patch s keyed cipher digests size reads set e =
      let keys = mutation_keys h key_data in
      let (snapshot_mac, state_signed, e1) =
        >>=-eq-ok
          (generate_snapshot_mac p (current_of).hash (suc state.version) c.patch_type
            keys.snapshot_mac_key)
          _ e in
      let (patch_mac, patch_signed, e2) =
        >>=-eq-ok
          (generate_patch_mac p snapshot_mac (r.value_mac ∷ []) (suc state.version) c.patch_type
            keys.patch_mac_key)
          _ e1 in
      let kept =
        put-mix_mac (p.hmac_sha256 keys.index_key (json.compact_index c.index)) r.value_mac
          (or_else op_set c.operation) (make_lt_hash_generator state) r.generator set r.mixed in
      let both = ok-injective e2 in
      let same_patch : patch_of snapshot_mac patch_mac ≡ patch = ap (λ x. x.0) both in
      let same_state : current_of ≡ s =
        ap (λ m. record current_of { index_value_map = m }) (sym kept) ∙ ap (λ x. x.1) both in
      rw (sym same_patch, sym same_state)
        (decoded_all keyed cipher digests size reads snapshot_mac patch_mac state_signed
          patch_signed)

module _ {V B : Type 0} (p : Primitives) (h : Digests) (json : Json V)
    (get_key : Bytes → Option Bytes) (download : B → Result (List Mutation)) where
  -- Where AES opens what it sealed, HMAC-SHA512 digests have 64 bytes and the initialisation vector 16,
  -- and the JSON of the action reads back: a patch that sets a value is accepted by decode_patches with
  -- all MACs checked, from the state that it was encoded in and under its type; decode_patches
  -- returns the state that encode_syncd_patch returned, and the action under its index.
  pub decode_patches-encode_syncd_patch :
      (c : PatchCreate V) (key_id iv : Bytes) (state s : LtHashState) (patch : SyncdPatch B)
      → IsCipher p
      → AreDigests h
      → length iv ≡ 16
      → json.loads (json.dumps (action_of c)) ≡ ok (action_of c)
      → or_else op_set c.operation == op_remove ≡ false
      → encode_syncd_patch p h json c key_id iv state get_key ≡ ok (patch, s)
      → decode_patches p h json get_key download c.patch_type (patch ∷ []) state none true
        ≡ ok (s, (json.spaced_index c.index, action_of c) ∷ [])
  unfolding encode_syncd_patch encode_with
  decode_patches-encode_syncd_patch c key_id iv state s patch cipher digests size reads set e =
      elim (Option-cases (key_named get_key key_id)) [
        | inl absent ↦ absurd (cc)
        | inr (key_data, named) ↦
            let keys = mutation_keys h key_data in
            let operation = or_else op_set c.operation in
            let index_mac = p.hmac_sha256 keys.index_key (json.compact_index c.index) in
            let encoded : encode_with p h json c operation key_id keys iv state ≡ ok (patch, s) =
              cc in
            let (enc_value, sealed, e1) =
              >>=-eq-ok (aes_encrypt p iv (json.dumps (action_of c)) keys.value_encryption_key) _
                encoded in
            let (value_mac, signed, e2) =
              >>=-eq-ok (generate_mac h operation enc_value key_id keys.value_mac_key) _ e1 in
            let (generator, mixed, e3) =
              >>=-eq-ok (mix_mac index_mac value_mac operation (make_lt_hash_generator state)) _
                e2 in
            decoded_patch p h json get_key download c key_id key_data iv state
              (record {
                enc_value = enc_value;
                value_mac = value_mac;
                generator = generator;
                sealed = sealed;
                signed = signed;
                mixed = mixed;
              })
              patch s (key_named_lem get_key key_id key_data named) cipher digests size reads set e3
      ]

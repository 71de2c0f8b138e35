-- ===== src/Sync/Checked.antt =====
-- `decode_patches` of wassupweb/utils/chat_utils.py with its checks: the MAC that the last patch
-- carries is the one of the state that is returned.
use wassupweb.Prelude.{
  ℕ, String, ◌≡◌, refl, sym, ap, ◌∙◌, inl, inr, Bool, true, false, Option, some, List, [], ◌∷◌,
  ◌++◌, Option-cases, Bytes, Result, ◌>>=◌, ok, ok-injective, >>=-eq-ok,
}
use wassupweb.Text.{Text, text_eq, text_eq_iff}
use wassupweb.Crypto.{Primitives}
use wassupweb.Hash.{IsSha512}
use wassupweb.Sync.{LtHashState, make_lt_hash_generator, finish}
use wassupweb.Sync.Macs.{Digests, mutation_keys, generate_snapshot_mac}
use wassupweb.Sync.Encode.{Json, Mutation, SyncdPatch, or_else}
use wassupweb.Sync.Decode.{
  MutationMap, ensure, check_mac, keys_for, decode_each, decode_syncd_mutations, check_patch,
  decode_syncd_patch, check_state, is_wanted, with_external, decode_one, decode_all, decode_patches,
}
use wassupweb.Sync.Totals.{total}
use wassupweb.Sync.Sealed.{IsSealed}
use wassupweb.Sync.Accepted.{decode_patches-IsSealed}

ensured : (test : Bool) (message : String) → ensure test message ≡ ok tt → test ≡ true
unfolding ensure
ensured true message e = refl
ensured false message e = cc

check_mac_inv :
    (computed : Result Bytes) (mac : Bytes) (message : String)
    → check_mac true computed mac message ≡ ok tt
    → computed ≡ ok mac
unfolding check_mac
check_mac_inv computed mac message e =
    let (c, made, e1) = >>=-eq-ok computed (λ c. ensure (text_eq c mac) message) e in
    made ∙ ap ok ((text_eq_iff c mac).0 (ensured (text_eq c mac) message e1))

module _ {V : Type 0} (p : Primitives) (h : Digests) (json : Json V)
    (get_key : Bytes → Option Bytes) where
  -- The snapshot MAC of a patch is the one of a state's version and of a hash, under a key that
  -- the device has.
  pub record IsVouched {B : Type 0} (name : Text) (syncd : SyncdPatch B) (version : ℕ)
      (hash : Bytes) : Type 0 where
    pub key_data : Bytes
    pub has_key : get_key (or_else [] syncd.key_id) ≡ some key_data
    pub agrees :
        generate_snapshot_mac p hash version name (mutation_keys h key_data).snapshot_mac_key
        ≡ ok (or_else [] syncd.snapshot_mac)
    pub versioned : version ≡ or_else 0 syncd.version

  check_state_inv :
      (name : Text) (key_id mac : Bytes) (s : LtHashState)
      → check_state p h json get_key name key_id mac s ≡ ok tt
      → (key_data : Bytes) × (get_key key_id ≡ some key_data)
        × (generate_snapshot_mac p s.hash s.version name (mutation_keys h key_data).snapshot_mac_key
            ≡ ok mac)
  unfolding check_state keys_for
  check_state_inv name key_id mac s e = elim (Option-cases (get_key key_id)) [
    | inl absent ↦ absurd (cc)
    | inr (key_data, there) ↦
        let keys = mutation_keys h key_data in
        let checked : check_mac true
              (generate_snapshot_mac p s.hash s.version name keys.snapshot_mac_key) mac
              "failed to verify LTHash"
            ≡ ok tt =
          cc in
        (key_data, there, check_mac_inv _ mac "failed to verify LTHash" checked)
  ]

  decode_syncd_mutations-version :
      (validate_macs wanted : Bool) (mutations : List Mutation) (state : LtHashState)
      (found : MutationMap V) (s : LtHashState × MutationMap V)
      → decode_syncd_mutations p h json get_key validate_macs wanted mutations (state, found) ≡ ok s
      → s.0.version ≡ state.version
  unfolding decode_syncd_mutations finish
  decode_syncd_mutations-version validate_macs wanted mutations state found s e =
      let (r, decoded, e1) =
        >>=-eq-ok
          (decode_each p h json get_key validate_macs wanted mutations
            (make_lt_hash_generator state, found))
          _ e in
      sym (ap (λ x. x.0.version) (ok-injective e1))

  module _ {B : Type 0} (download : B → Result (List Mutation)) where
    decode_one-IsVouched :
        (name : Text) (minimum : Option ℕ) (syncd : SyncdPatch B) (state : LtHashState)
        (found : MutationMap V) (s : LtHashState × MutationMap V)
        → decode_one p h json get_key download name minimum true syncd (state, found) ≡ ok s
        → IsVouched name syncd s.0.version s.0.hash
    unfolding decode_one decode_syncd_patch
    decode_one-IsVouched name minimum syncd state found s e =
        let version = or_else 0 syncd.version in
        let wanted = is_wanted p h json get_key minimum version in
        let (r, decoded, e1) =
          >>=-eq-ok
            (decode_syncd_patch p h json get_key true wanted name syncd
              (record state { version = version }, found))
            _ e in
        let (u, patch_checked, mutations_decoded) =
          >>=-eq-ok (check_patch p h json get_key name syncd) _ decoded in
        let (tt, checked, e2) =
          >>=-eq-ok
            (check_state p h json get_key name (or_else [] syncd.key_id)
              (or_else [] syncd.snapshot_mac) r.0)
            _ e1 in
        let same : r ≡ s = ok-injective e2 in
        let (key_data, there, agrees) =
          check_state_inv name (or_else [] syncd.key_id) (or_else [] syncd.snapshot_mac) r.0
            checked in
        rw (sym same) (record {
          key_data = key_data;
          has_key = there;
          agrees = agrees;
          versioned =
              decode_syncd_mutations-version true wanted syncd.mutations
                (record state { version = version }) found r mutations_decoded;
        })

    with_external_same :
        (syncd whole : SyncdPatch B) (version : ℕ) (hash : Bytes) (name : Text)
        → with_external p h json get_key download syncd ≡ ok whole
        → IsVouched name whole version hash
        → IsVouched name syncd version hash
    unfolding with_external
    with_external_same syncd whole version hash name e v =
        elim (Option-cases syncd.external_mutations) [
          | inl alone ↦ let same : syncd ≡ whole = ok-injective (cc) in rw same v
          | inr (blob, there) ↦
              let split : (download blob >>= λ more.
              ok (record syncd { mutations = syncd.mutations ++ more }))
                  ≡ ok whole =
                cc in
              let (more, _, e1) = >>=-eq-ok (download blob) _ split in
              let same : record syncd { mutations = syncd.mutations ++ more } ≡ whole =
                ok-injective e1 in
              record {
                key_data = v.key_data;
                has_key = ap (λ x. get_key (or_else [] x.key_id)) same ∙ v.has_key;
                agrees = v.agrees ∙ ap (λ x. ok (or_else [] x.snapshot_mac)) (sym same);
                versioned = v.versioned ∙ ap (λ x. or_else 0 x.version) (sym same);
              }
        ]

    decode_all-IsVouched :
        (name : Text) (minimum : Option ℕ) (syncds : List (SyncdPatch B)) (last : SyncdPatch B)
        (s r : LtHashState × MutationMap V)
        → decode_all p h json get_key download name minimum true (syncds ++ last ∷ []) s ≡ ok r
        → IsVouched name last r.0.version r.0.hash
    unfolding decode_all
    decode_all-IsVouched name minimum [] last s r e =
        let (whole, loaded, e1) = >>=-eq-ok (with_external p h json get_key download last) _ e in
        let (next, decoded, e2) =
          >>=-eq-ok (decode_one p h json get_key download name minimum true whole s) _ e1 in
        let same : next ≡ r = ok-injective e2 in
        rw (sym same) (
          with_external_same last whole next.0.version next.0.hash name loaded
            (decode_one-IsVouched name minimum whole s.0 s.1 next decoded))
    decode_all-IsVouched name minimum (syncd ∷ syncds) last s r e =
        let (whole, loaded, e1) = >>=-eq-ok (with_external p h json get_key download syncd) _ e in
        let (next, decoded, e2) =
          >>=-eq-ok (decode_one p h json get_key download name minimum true whole s) _ e1 in
        decode_all-IsVouched name minimum syncds last next r e2

    -- Where SHA-512 digests are 64 bytes and the hash before is the one of its map: after patches that
    -- are accepted with all MACs checked, the snapshot MAC of the last one is that of its
    -- version and of the hash that the new map stands for, under a key that the device has.
    pub decode_patches-IsVouched :
        (name : Text) (syncds : List (SyncdPatch B)) (last : SyncdPatch B) (state s : LtHashState)
        (minimum : Option ℕ) (found : MutationMap V)
        → IsSha512 h.sha512
        → IsSealed h.sha512 state
        → decode_patches p h json get_key download name (syncds ++ last ∷ []) state minimum true
          ≡ ok (s, found)
        → IsVouched name last s.version (total h.sha512 s.index_value_map)
    unfolding decode_patches IsSealed
    decode_patches-IsVouched name syncds last state s minimum found d sealed e =
        let same : s.hash ≡ total h.sha512 s.index_value_map =
          decode_patches-IsSealed p h d json get_key download name minimum true
            (syncds ++ last ∷ []) state (s, found) e sealed in
        rw (sym same) (decode_all-IsVouched name minimum syncds last (state, []) (s, found) e)

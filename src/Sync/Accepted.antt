-- ===== src/Sync/Accepted.antt =====
-- Snapshots and patches that the decoders of wassupweb/utils/chat_utils.py accept lead to a state whose
-- hash is that of its map.
use wassupweb.Prelude.{
  ℕ, ◌≡◌, sym, ap, Bool, Option, List, [], ◌∷◌, if◌then◌else◌, Bytes, Result, ok, ok-injective,
  >>=-eq-ok,
}
use wassupweb.Text.{Text}
use wassupweb.Crypto.{Primitives}
use wassupweb.Hash.{IsSha512}
use wassupweb.Sync.{LtHashState, Generator, new_lthash_state, make_lt_hash_generator, finish}
use wassupweb.Sync.Macs.{Digests}
use wassupweb.Sync.Encode.{Json, Mutation, SyncdPatch, or_else}
use wassupweb.Sync.Decode.{
  Snapshot, MutationMap, open_mutation, on_mutation, mac_in, decode_each, decode_syncd_mutations,
  decode_syncd_snapshot, decode_one, decode_all, decode_patches, with_external, decode_syncd_patch,
  check_patch, check_state, is_wanted,
}
use wassupweb.Sync.Sealed.{
  IsSealed, IsBalanced, new_lthash_state-IsSealed, make_lt_hash_generator-IsBalanced,
  finish-IsSealed, from_ok, mix_mac-IsBalanced,
}

module _ {V : Type 0} (p : Primitives) (h : Digests) (d : IsSha512 h.sha512) (json : Json V)
    (get_key : Bytes → Option Bytes) where
  decode_each-IsBalanced :
      (validate_macs wanted : Bool) (mutations : List Mutation) (g : Generator)
      (found : MutationMap V) (s : Generator × MutationMap V)
      → decode_each p h json get_key validate_macs wanted mutations (g, found) ≡ ok s
      → IsBalanced h.sha512 g
      → IsBalanced h.sha512 s.0
  unfolding decode_each
  decode_each-IsBalanced validate_macs wanted [] g found s e b =
      from_ok h.sha512 d g s.0 (ap (λ r. ok r.0) (ok-injective e)) b
  decode_each-IsBalanced validate_macs wanted (m ∷ mutations) g found s e b =
      let (decoded, _, e1) = >>=-eq-ok (open_mutation p h json get_key validate_macs m) _ e in
      let (g', mixed, e2) = >>=-eq-ok _ _ e1 in
      decode_each-IsBalanced validate_macs wanted mutations g'
        (on_mutation p h json get_key wanted decoded found) s e2
        (mix_mac-IsBalanced h.sha512 d (or_else [] m.index_blob) (mac_in (or_else [] m.value_blob))
          (or_else 1 m.operation) g g' mixed b)

  decode_syncd_mutations-IsSealed :
      (validate_macs wanted : Bool) (mutations : List Mutation) (state : LtHashState)
      (found : MutationMap V) (s : LtHashState × MutationMap V)
      → decode_syncd_mutations p h json get_key validate_macs wanted mutations (state, found) ≡ ok s
      → IsSealed h.sha512 state
      → IsSealed h.sha512 s.0
  unfolding decode_syncd_mutations
  decode_syncd_mutations-IsSealed validate_macs wanted mutations state found s e sealed =
      let (r, decoded, e1) =
        >>=-eq-ok
          (decode_each p h json get_key validate_macs wanted mutations
            (make_lt_hash_generator state, found))
          _ e in
      let same : (finish h.sha512 state.version r.0, r.1) ≡ s = ok-injective e1 in
      let start = make_lt_hash_generator-IsBalanced h.sha512 d state sealed in
      let balanced =
        decode_each-IsBalanced validate_macs wanted mutations (make_lt_hash_generator state) found r
          decoded start in
      rw (sym same) (finish-IsSealed h.sha512 d state.version r.0 balanced)

  pub decode_syncd_snapshot-IsSealed :
      (name : Text) (snapshot : Snapshot) (minimum : Option ℕ) (validate_macs : Bool)
      (s : LtHashState × MutationMap V)
      → decode_syncd_snapshot p h json get_key name snapshot minimum validate_macs ≡ ok s
      → IsSealed h.sha512 s.0
  unfolding decode_syncd_snapshot
  decode_syncd_snapshot-IsSealed name snapshot minimum validate_macs s e =
      let version = or_else 0 snapshot.version in
      let (r, decoded, e1) =
        >>=-eq-ok
          (decode_syncd_mutations p h json get_key validate_macs
            (is_wanted p h json get_key minimum version) snapshot.records
            (record new_lthash_state { version = version }, []))
          _ e in
      let (u, checked, e2) =
        >>=-eq-ok
          (if validate_macs
            then check_state p h json get_key name (or_else [] snapshot.key_id)
                (or_else [] snapshot.mac) r.0
            else ok tt)
          _ e1 in
      let same : r ≡ s = ok-injective e2 in
      rw (sym same) (
        decode_syncd_mutations-IsSealed validate_macs (is_wanted p h json get_key minimum version)
          snapshot.records (record new_lthash_state { version = version }) [] r decoded
          (new_lthash_state-IsSealed h.sha512 d version))

  module _ {B : Type 0} (download : B → Result (List Mutation)) where
    decode_one-IsSealed :
        (name : Text) (minimum : Option ℕ) (validate_macs : Bool) (syncd : SyncdPatch B)
        (state : LtHashState) (found : MutationMap V) (s : LtHashState × MutationMap V)
        → decode_one p h json get_key download name minimum validate_macs syncd (state, found)
          ≡ ok s
        → IsSealed h.sha512 state
        → IsSealed h.sha512 s.0
    unfolding decode_one decode_syncd_patch IsSealed
    decode_one-IsSealed name minimum validate_macs syncd state found s e sealed =
        let version = or_else 0 syncd.version in
        let (r, decoded, e1) =
          >>=-eq-ok
            (decode_syncd_patch p h json get_key validate_macs
              (is_wanted p h json get_key minimum version) name syncd
              (record state { version = version }, found))
            _ e in
        let (u, patch_checked, mutations_decoded) =
          >>=-eq-ok (if validate_macs then check_patch p h json get_key name syncd else ok tt) _
            decoded in
        let (v, checked, e2) =
          >>=-eq-ok
            (if validate_macs
              then check_state p h json get_key name (or_else [] syncd.key_id)
                  (or_else [] syncd.snapshot_mac) r.0
              else ok tt)
            _ e1 in
        let same : r ≡ s = ok-injective e2 in
        rw (sym same) (
          decode_syncd_mutations-IsSealed validate_macs (is_wanted p h json get_key minimum version)
            syncd.mutations (record state { version = version }) found r mutations_decoded sealed)

    decode_all-IsSealed :
        (name : Text) (minimum : Option ℕ) (validate_macs : Bool) (syncds : List (SyncdPatch B))
        (state : LtHashState) (found : MutationMap V) (s : LtHashState × MutationMap V)
        → decode_all p h json get_key download name minimum validate_macs syncds (state, found)
          ≡ ok s
        → IsSealed h.sha512 state
        → IsSealed h.sha512 s.0
    unfolding decode_all
    decode_all-IsSealed name minimum validate_macs [] state found s e sealed =
        let same : (state, found) ≡ s = ok-injective e in rw (sym same) sealed
    decode_all-IsSealed name minimum validate_macs (syncd ∷ syncds) state found s e sealed =
        let (whole, _, e1) = >>=-eq-ok (with_external p h json get_key download syncd) _ e in
        let (next, decoded, e2) =
          >>=-eq-ok
            (decode_one p h json get_key download name minimum validate_macs whole (state, found)) _
            e1 in
        decode_all-IsSealed name minimum validate_macs syncds next.0 next.1 s e2
          (decode_one-IsSealed name minimum validate_macs whole state found next decoded sealed)

    pub decode_patches-IsSealed :
        (name : Text) (minimum : Option ℕ) (validate_macs : Bool) (syncds : List (SyncdPatch B))
        (state : LtHashState) (s : LtHashState × MutationMap V)
        → decode_patches p h json get_key download name syncds state minimum validate_macs ≡ ok s
        → IsSealed h.sha512 state
        → IsSealed h.sha512 s.0
    unfolding decode_patches
    decode_patches-IsSealed name minimum validate_macs syncds state s e sealed =
        decode_all-IsSealed name minimum validate_macs syncds state [] s e sealed

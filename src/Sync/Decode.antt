-- ===== src/Sync/Decode.antt =====
-- The decoders of wassupweb/utils/chat_utils.py: mutations, patches, snapshots. The map that
-- `on_mutation` fills is state; the cache of keys is left out, since the keys do not change.
-- The input's mutations, which `decode_patches` clears when it has read them, are left out too.
use wassupweb.Prelude.{
  ℕ, ◌-◌, String, Bool, true, false, Option, none, some, List, [], ◌∷◌, ◌++◌, ltb, leb,
  if◌then◌else◌, Bytes, length, take, drop, Result, ◌>>=◌, ◌>>◌, ok, err, value_error,
}
use wassupweb.Text.{Text, text_eq}
use wassupweb.Lid.{dict_put}
use wassupweb.Crypto.{Primitives}
use wassupweb.Sync.{
  LtHashState, Generator, make_lt_hash_generator, mix_mac, finish, op_set, new_lthash_state,
}
use wassupweb.Sync.Macs.{
  Digests, MutationKeys, mutation_keys, generate_mac, generate_snapshot_mac, generate_patch_mac,
  aes_decrypt,
}
use wassupweb.Sync.Encode.{Action, Json, Mutation, SyncdPatch, or_else}

pub record Snapshot : Type 0 where
  pub version : Option ℕ
  pub records : List Mutation
  pub key_id : Option Bytes
  pub mac : Option Bytes

abbrev pub MutationMap : Type 0 → Type 0
MutationMap V = List (Text × Action V)

unfoldable pub ensure : Bool → String → Result (Unit {0})
ensure true message = ok tt
ensure false message = err (value_error message)

-- `content[:-32]` and `content[-32:]`
unfoldable pub without_mac : Bytes → Bytes
without_mac content = take (length content - 32) content

unfoldable pub mac_in : Bytes → Bytes
mac_in content = drop (length content - 32) content

-- `content_mac != og_value_mac`, where MACs are checked
unfoldable pub check_mac : Bool → Result Bytes → Bytes → String → Result (Unit {0})
unfolding ensure
check_mac false computed mac message = ok tt
check_mac true computed mac message = computed >>= λ c. ensure (text_eq c mac) message

-- The blobs of records only: a mutation with no record counts as one with no value.
unfoldable pub value_macs : List Mutation → List Bytes
unfolding mac_in or_else
value_macs [] = []
value_macs (m ∷ mutations) =
    mac_in (if m.in_record then or_else [] m.value_blob else []) ∷ value_macs mutations

module _ {V : Type 0} (p : Primitives) (h : Digests) (json : Json V)
    (get_key : Bytes → Option Bytes) where
  unfoldable pub keys_for : Bytes → Result MutationKeys
  unfolding mutation_keys
  keys_for key_id = elim (get_key key_id) [
    | none ↦ err (value_error "failed to find key")
    | some key_data ↦ ok (mutation_keys h key_data)
  ]

  -- The mutation that `on_mutation` is given.
  unfoldable pub mutation_obj : Action V → Action V
  unfolding or_else
  mutation_obj decoded = record decoded { index = some (or_else [] decoded.index) }

  unfoldable pub on_mutation : Bool → Action V → MutationMap V → MutationMap V
  unfolding dict_put or_else mutation_obj
  on_mutation false decoded m = m
  on_mutation true decoded m =
      dict_put (json.spaced_index (or_else [] decoded.index)) (mutation_obj decoded) m

  -- The content of a mutation: what it says, after the checks of both MACs.
  unfoldable pub open_mutation : Bool → Mutation → Result (Action V)
  unfolding keys_for ensure check_mac generate_mac without_mac mac_in aes_decrypt or_else
  open_mutation validate_macs m =
      let key_id = or_else [] m.key_id in
      let content = or_else [] m.value_blob in
      do
        keys ← keys_for key_id
        sized ← ensure (leb 32 (length content)) "invalid mutation value blob"
        checked ←
            check_mac validate_macs
              (generate_mac h (or_else op_set m.operation) (without_mac content) key_id
                keys.value_mac_key)
              (mac_in content) "HMAC content verification failed"
        raw ← aes_decrypt p (without_mac content) keys.value_encryption_key
        decoded ← json.loads raw
        indexed ←
            check_mac validate_macs
              (ok (p.hmac_sha256 keys.index_key (json.compact_index (or_else [] decoded.index))))
              (or_else [] m.index_blob) "HMAC index verification failed"
        ok decoded

  -- The loop of `decode_syncd_mutations`
  unfoldable pub decode_each :
      Bool → Bool → List Mutation → Generator × MutationMap V → Result (Generator × MutationMap V)
  unfolding open_mutation on_mutation mix_mac mac_in or_else
  decode_each validate_macs wanted [] s = ok s
  decode_each validate_macs wanted (m ∷ mutations) (g, found) = do
    decoded ← open_mutation validate_macs m
    g' ←
        mix_mac (or_else [] m.index_blob) (mac_in (or_else [] m.value_blob))
          (or_else op_set m.operation) g
    decode_each validate_macs wanted mutations (g', on_mutation wanted decoded found)

  unfoldable pub decode_syncd_mutations :
      Bool
      → Bool
      → List Mutation
      → LtHashState × MutationMap V
      → Result (LtHashState × MutationMap V)
  unfolding decode_each make_lt_hash_generator finish
  decode_syncd_mutations validate_macs wanted mutations (state, found) = do
    s ← decode_each validate_macs wanted mutations (make_lt_hash_generator state, found)
    ok (finish h.sha512 state.version s.0, s.1)

  -- The check of the MAC over a patch.
  unfoldable pub check_patch : {B : Type 0} → Text → SyncdPatch B → Result (Unit {0})
  unfolding keys_for check_mac generate_patch_mac value_macs or_else
  check_patch name msg = do
    keys ← keys_for (or_else [] msg.key_id)
    check_mac true
        (generate_patch_mac p (or_else [] msg.snapshot_mac) (value_macs msg.mutations)
          (or_else 0 msg.version) name keys.patch_mac_key)
        (or_else [] msg.patch_mac) "Invalid patch mac"

  unfoldable pub decode_syncd_patch :
      {B : Type 0}
      → Bool
      → Bool
      → Text
      → SyncdPatch B
      → LtHashState × MutationMap V
      → Result (LtHashState × MutationMap V)
  unfolding check_patch decode_syncd_mutations
  decode_syncd_patch validate_macs wanted name msg s =
      (if validate_macs then check_patch name msg else ok tt)
      >> decode_syncd_mutations validate_macs wanted msg.mutations s

  -- The check that the new hash is the one whose MAC the sender sent.
  unfoldable pub check_state : Text → Bytes → Bytes → LtHashState → Result (Unit {0})
  unfolding keys_for check_mac generate_snapshot_mac
  check_state name key_id mac state = do
    keys ← keys_for key_id
    check_mac true (generate_snapshot_mac p state.hash state.version name keys.snapshot_mac_key) mac
        "failed to verify LTHash"

  -- `minimum_version_number is None or version > minimum_version_number`
  unfoldable pub is_wanted : Option ℕ → ℕ → Bool
  is_wanted none version = true
  is_wanted (some minimum) version = ltb minimum version

  unfoldable pub decode_syncd_snapshot :
      Text → Snapshot → Option ℕ → Bool → Result (LtHashState × MutationMap V)
  unfolding is_wanted decode_syncd_mutations check_state or_else
  decode_syncd_snapshot name snapshot minimum validate_macs =
      let version = or_else 0 snapshot.version in
      do
        s ←
            decode_syncd_mutations validate_macs (is_wanted minimum version) snapshot.records
              (record new_lthash_state { version = version }, [])
        checked ←
            (if validate_macs
              then check_state name (or_else [] snapshot.key_id) (or_else [] snapshot.mac) s.0
              else ok tt)
        ok s

  module _ {B : Type 0} (download : B → Result (List Mutation)) where
    -- `download_external_patch`, whose mutations come behind those of the patch
    unfoldable pub with_external : SyncdPatch B → Result (SyncdPatch B)
    with_external syncd = elim syncd.external_mutations [
      | none ↦ ok syncd
      | some blob ↦ do
        more ← download blob
        ok (record syncd { mutations = syncd.mutations ++ more })
    ]

    unfoldable pub decode_one :
        Text
        → Option ℕ
        → Bool
        → SyncdPatch B
        → LtHashState × MutationMap V
        → Result (LtHashState × MutationMap V)
    unfolding decode_syncd_patch check_state is_wanted or_else
    decode_one name minimum validate_macs syncd (state, found) =
        let version = or_else 0 syncd.version in
        do
          s ←
              decode_syncd_patch validate_macs (is_wanted minimum version) name syncd
                (record state { version = version }, found)
          checked ←
              (if validate_macs
                then check_state name (or_else [] syncd.key_id) (or_else [] syncd.snapshot_mac) s.0
                else ok tt)
          ok s

    unfoldable pub decode_all :
        Text
        → Option ℕ
        → Bool
        → List (SyncdPatch B)
        → LtHashState × MutationMap V
        → Result (LtHashState × MutationMap V)
    unfolding with_external decode_one
    decode_all name minimum validate_macs [] s = ok s
    decode_all name minimum validate_macs (syncd ∷ syncds) s = do
      whole ← with_external syncd
      next ← decode_one name minimum validate_macs whole s
      decode_all name minimum validate_macs syncds next

    unfoldable pub decode_patches :
        Text
        → List (SyncdPatch B)
        → LtHashState
        → Option ℕ
        → Bool
        → Result (LtHashState × MutationMap V)
    unfolding decode_all
    decode_patches name syncds initial minimum validate_macs =
        decode_all name minimum validate_macs syncds (initial, [])

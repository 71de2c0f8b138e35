-- ===== src/Sync/Macs.antt =====
-- wassupweb/utils/chat_utils.py: the keys and the MACs of mutations and patches.
use wassupweb.Prelude.{
  ℕ, zero, suc, ◌+◌, ◌/◌, ◌%◌, ◌≤◌, ◌≡◌, List, [], ◌∷◌, ◌++◌, arith, ltb, ◌==◌, if◌then◌else◌,
  Bytes, length, take, drop, replicate, length-append, length-take, Result, ◌>>=◌, ok, err,
  value_error, overflow_error,
}
use wassupweb.Text.{Text, ascii}
use wassupweb.Crypto.{Primitives}
use wassupweb.Sync.{op_set}

-- hashlib's SHA-512, and `hmac.new(key, message, "sha512").digest()`
pub record Digests : Type 0 where
  pub sha512 : Bytes → Bytes
  pub hmac_sha512 : Bytes → Bytes → Bytes

-- HMAC-SHA512 digests have 64 bytes.
pub record AreDigests (h : Digests) : Type 0 where
  pub length-hmac : (key message : Bytes) → length (h.hmac_sha512 key message) ≡ 64

pub record MutationKeys : Type 0 where
  pub index_key : Bytes
  pub value_encryption_key : Bytes
  pub value_mac_key : Bytes
  pub snapshot_mac_key : Bytes
  pub patch_mac_key : Bytes

abbrev pub key_seed : Bytes
key_seed = ascii "app-state-sync-key-seed"

module _ (h : Digests) where
  -- `while len(material) < 160`, whose counter starts at 1
  unfoldable pub expand_keys : ℕ → Bytes → Bytes → ℕ → Bytes → Bytes
  expand_keys zero seed key_data counter material = material
  expand_keys (suc fuel) seed key_data counter material =
      let rest =
        expand_keys fuel seed key_data (suc counter)
          (material ++ h.hmac_sha512 key_data (seed ++ counter ∷ [])) in
      if ltb (length material) 160 then rest else material

  unfoldable pub material_of : Bytes → Bytes
  unfolding expand_keys
  material_of key_data = expand_keys 160 (h.hmac_sha512 key_seed key_data) key_data 1 []

  unfoldable pub mutation_keys : Bytes → MutationKeys
  unfolding material_of
  mutation_keys key_data =
      let material = material_of key_data in
      record {
        index_key = take 32 material;
        value_encryption_key = take 32 (drop 32 material);
        value_mac_key = take 32 (drop 64 material);
        snapshot_mac_key = take 32 (drop 96 material);
        patch_mac_key = take 32 (drop 128 material);
      }

  expand_keys_reaches :
      (fuel : ℕ) (seed key_data : Bytes) (counter : ℕ) (material : Bytes)
      → AreDigests h
      → 160 ≤ length material + fuel
      → 160 ≤ length (expand_keys fuel seed key_data counter material)
  unfolding expand_keys
  expand_keys_reaches zero seed key_data counter material d e = omega arith
  expand_keys_reaches (suc fuel) seed key_data counter material d e =
      let block = h.hmac_sha512 key_data (seed ++ counter ∷ []) in
      ground (
        arith,
        d.length-hmac key_data (seed ++ counter ∷ []),
        length-append material block,
        expand_keys_reaches fuel seed key_data (suc counter) (material ++ block) d,
      )

  -- Where digests have 64 bytes, the loop ends with enough bytes for five keys.
  pub length-material_of : (key_data : Bytes) → AreDigests h → 160 ≤ length (material_of key_data)
  unfolding material_of
  length-material_of key_data d =
      expand_keys_reaches 160 (h.hmac_sha512 key_seed key_data) key_data 1 [] d (omega arith)

  -- `suffix[7] = len(key_data)` raises where the length is no byte.
  unfoldable pub generate_mac : ℕ → Bytes → Bytes → Bytes → Result Bytes
  generate_mac operation content key_id key =
      let key_data = (if operation == op_set then 1 else 2) ∷ key_id in
      if ltb (length key_data) 256
      then ok (
          take 32
            (h.hmac_sha512 key (key_data ++ (content ++ (replicate 7 0 ++ length key_data ∷ [])))))
      else err (value_error "byte must be in range(0, 256)")

  pub length-generate_mac :
      (operation : ℕ) (content key_id key mac : Bytes)
      → AreDigests h
      → generate_mac operation content key_id key ≡ ok mac
      → length mac ≡ 32
  unfolding generate_mac
  length-generate_mac operation content key_id key mac d e =
      let key_data = (if operation == op_set then 1 else 2) ∷ key_id in
      let message = key_data ++ (content ++ (replicate 7 0 ++ length key_data ∷ [])) in
      let size = length-take 32 (h.hmac_sha512 key message) in
      let full = d.length-hmac key message in ground (arith)

-- The last digits of `n` to the base 256, most significant first.
unfoldable pub big_endian : ℕ → ℕ → Bytes
big_endian zero n = []
big_endian (suc count) n = big_endian count (n / 256) ++ n % 256 ∷ []

-- `int(value).to_bytes(8, "big", signed=False)`
unfoldable pub to_64_bit_network_order : ℕ → Result Bytes
unfolding big_endian
to_64_bit_network_order value =
    if ltb value 18446744073709551616 then ok (big_endian 8 value) else err overflow_error

unfoldable pub join : List Bytes → Bytes
join [] = []
join (b ∷ pieces) = b ++ join pieces

module _ (p : Primitives) where
  unfoldable pub generate_snapshot_mac : Bytes → ℕ → Text → Bytes → Result Bytes
  unfolding to_64_bit_network_order
  generate_snapshot_mac lthash version name key = do
    order ← to_64_bit_network_order version
    ok (p.hmac_sha256 key (lthash ++ (order ++ name)))

  unfoldable pub generate_patch_mac : Bytes → List Bytes → ℕ → Text → Bytes → Result Bytes
  unfolding to_64_bit_network_order join
  generate_patch_mac snapshot_mac value_macs version patch_type key = do
    order ← to_64_bit_network_order version
    ok (p.hmac_sha256 key (snapshot_mac ++ (join value_macs ++ (order ++ patch_type))))

  -- `aes_encrypt`, whose initialisation vector is an argument
  unfoldable pub aes_encrypt : Bytes → Bytes → Bytes → Result Bytes
  aes_encrypt iv buffer key = do sealed ← p.cbc_encrypt key iv buffer; ok (iv ++ sealed)

  unfoldable pub aes_decrypt : Bytes → Bytes → Result Bytes
  aes_decrypt buffer key = p.cbc_decrypt key (take 16 buffer) (drop 16 buffer)

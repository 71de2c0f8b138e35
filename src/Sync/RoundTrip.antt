-- ===== src/Sync/RoundTrip.antt =====
-- wassupweb/utils/chat_utils.py: a mutation that `encode_syncd_patch` sealed is opened by the decoder.
use wassupweb.Prelude.{
  ℕ, ◌-◌, String, ◌≡◌, refl, sym, true, Option, some, [], ◌∷◌, ◌++◌, arith, leb, Bytes, length,
  take, drop, length-append, take-length-append, drop-length-append, Result, ok, ok-injective,
  >>=-eq-ok,
}
use wassupweb.Retry.Lookup.{text_eq_refl}
use wassupweb.Crypto.{Primitives, IsCipher}
use wassupweb.Sync.{LtHashState, Generator, make_lt_hash_generator, mix_mac}
use wassupweb.Sync.Macs.{
  Digests, AreDigests, mutation_keys, aes_encrypt, aes_decrypt, generate_mac, length-generate_mac,
}
use wassupweb.Sync.Encode.{Json, Mutation, PatchCreate, or_else, key_named, action_of}
use wassupweb.Sync.Decode.{ensure, check_mac, keys_for, without_mac, mac_in, open_mutation}

pub without_mac_lem :
    (content mac : Bytes) → length mac ≡ 32 → without_mac (content ++ mac) ≡ content
unfolding without_mac
without_mac_lem content mac size =
    let cut : length (content ++ mac) - 32 ≡ length content =
      omega (arith, length-append content mac) in
    rw cut (take-length-append content mac)

pub mac_in_lem : (content mac : Bytes) → length mac ≡ 32 → mac_in (content ++ mac) ≡ mac
unfolding mac_in
mac_in_lem content mac size =
    let cut : length (content ++ mac) - 32 ≡ length content =
      omega (arith, length-append content mac) in
    rw cut (drop-length-append content mac)

long_enough : (content mac : Bytes) → length mac ≡ 32 → leb 32 (length (content ++ mac)) ≡ true
long_enough content mac size = ground (arith, length-append content mac)

pub key_named_lem :
    (get_key : Bytes → Option Bytes) (key_id key_data : Bytes)
    → key_named get_key key_id ≡ some key_data
    → get_key key_id ≡ some key_data
unfolding key_named
key_named_lem get_key [] key_data e = cc
key_named_lem get_key (b ∷ key_id) key_data e = e

aes_decrypt-encrypt :
    (p : Primitives) (iv text key sealed : Bytes)
    → IsCipher p
    → length iv ≡ 16
    → aes_encrypt p iv text key ≡ ok sealed
    → aes_decrypt p sealed key ≡ ok text
unfolding aes_encrypt aes_decrypt
aes_decrypt-encrypt p iv text key sealed c size e =
    let (body, made, e1) = >>=-eq-ok (p.cbc_encrypt key iv text) _ e in
    let same : iv ++ body ≡ sealed = ok-injective e1 in
    let front : take 16 (iv ++ body) ≡ iv = rw (sym size) (take-length-append iv body) in
    let back : drop 16 (iv ++ body) ≡ body = rw (sym size) (drop-length-append iv body) in
    rw (sym same, aes_decrypt, front, back) (c.cbc_open key iv text body made)

pub check_mac_lem :
    (computed : Result Bytes) (mac : Bytes) (message : String)
    → computed ≡ ok mac
    → check_mac true computed mac message ≡ ok tt
unfolding check_mac ensure
check_mac_lem computed mac message e = rw (e, text_eq_refl mac) refl

module _ {V : Type 0} (p : Primitives) (h : Digests) (json : Json V)
    (get_key : Bytes → Option Bytes) where
  -- What `encode_syncd_patch` computes on its way.
  pub record Sent (c : PatchCreate V) (operation : ℕ) (key_id key_data iv : Bytes)
      (state : LtHashState) : Type 0 where
    pub enc_value : Bytes
    pub value_mac : Bytes
    pub generator : Generator
    pub sealed :
        aes_encrypt p iv (json.dumps (action_of c)) (mutation_keys h key_data).value_encryption_key
        ≡ ok enc_value
    pub signed :
        generate_mac h operation enc_value key_id (mutation_keys h key_data).value_mac_key
        ≡ ok value_mac
    pub mixed :
        mix_mac
          (p.hmac_sha256 (mutation_keys h key_data).index_key (json.compact_index c.index))
          value_mac
          operation
          (make_lt_hash_generator state)
        ≡ ok generator

  module _ (c : PatchCreate V) (operation : ℕ) (key_id key_data iv : Bytes) (state : LtHashState)
      (r : Sent c operation key_id key_data iv state) where
    abbrev pub mutation_of : Mutation
    mutation_of = record {
      in_record = true;
      operation = some operation;
      index_blob =
          some (p.hmac_sha256 (mutation_keys h key_data).index_key (json.compact_index c.index));
      value_blob = some (r.enc_value ++ r.value_mac);
      key_id = some key_id;
    }

    pub opened :
        get_key key_id ≡ some key_data
        → IsCipher p
        → AreDigests h
        → length iv ≡ 16
        → json.loads (json.dumps (action_of c)) ≡ ok (action_of c)
        → open_mutation p h json get_key true mutation_of ≡ ok (action_of c)
    unfolding open_mutation keys_for ensure or_else action_of
    opened keyed cipher digests size reads =
        let keys = mutation_keys h key_data in
        let full =
          length-generate_mac h operation r.enc_value key_id keys.value_mac_key r.value_mac digests
            r.signed in
        let text =
          aes_decrypt-encrypt p iv (json.dumps (action_of c)) keys.value_encryption_key r.enc_value
            cipher size r.sealed in
        let index =
          check_mac_lem (ok (p.hmac_sha256 keys.index_key (json.compact_index c.index)))
            (p.hmac_sha256 keys.index_key (json.compact_index c.index))
            "HMAC index verification failed" refl in
        let content =
          check_mac_lem (generate_mac h operation r.enc_value key_id keys.value_mac_key) r.value_mac
            "HMAC content verification failed" r.signed in
        rw
          (
            open_mutation,
            keys_for,
            keyed,
            long_enough r.enc_value r.value_mac full,
            without_mac_lem r.enc_value r.value_mac full,
            mac_in_lem r.enc_value r.value_mac full,
            content,
            text,
            reads,
            index,
          )
          refl

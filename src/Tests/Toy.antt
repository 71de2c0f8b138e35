-- ===== src/Tests/Toy.antt =====
-- Concrete stand-ins for the cryptographic libraries, for which their laws hold.
use wassupweb.Prelude.{
  ℕ, ◌+◌, ◌≡◌, refl, sym, ap, ◌∙◌, true, [], ◌∷◌, Bytes, length, take, replicate, length-replicate,
  Result, ok-injective, ok, err, value_error,
}
use wassupweb.Crypto.{Primitives, IsCipher, IsSignature, IsDigest, KeysMatch}

-- Digests depend on the first byte of what they digest; sealed texts carry one byte more.
abbrev head : Bytes → ℕ
head [] = 0
head (b ∷ bytes) = b

abbrev unseal : Bytes → Result Bytes
unseal [] = err (value_error "sealed")
unseal (b ∷ bytes) = ok bytes

abbrev pub toy : Primitives
toy = record {
  hmac_sha256 = λ key message. replicate 32 (head message + head key);
  sha256 = λ message. take 32 message;
  hkdf_derive = λ seed salt info. replicate 64 (head seed);
  cbc_encrypt = λ key iv text. ok (head key ∷ text);
  cbc_decrypt = λ key iv sealed. unseal sealed;
  gcm_encrypt = λ key iv aad text. head key ∷ text;
  gcm_decrypt = λ key iv aad sealed. unseal sealed;
  ed25519_sign = λ private payload. ok (replicate 64 (head private));
  ed25519_verify = λ public message signature. true;
}

pub toy-IsCipher : IsCipher toy
toy-IsCipher = record {
  cbc_open = λ key iv text sealed e. opened (head key) text sealed e;
  gcm_open = λ key iv aad text. refl;
}
  where
    opened : (b : ℕ) (text sealed : Bytes) → ok (b ∷ text) ≡ ok sealed → unseal sealed ≡ ok text
    opened b text sealed e = ap unseal (sym (ok-injective e))

pub toy-IsSignature : IsSignature toy
toy-IsSignature = record {
  length-sign = λ private payload signature e.
      ap (λ (s : Bytes). length s) (sym (ok-injective e)) ∙ length-replicate 64 (head private);
}

pub toy-IsDigest : IsDigest toy
toy-IsDigest = record { length-hmac = λ key message. length-replicate 32 (head message + head key) }

pub toy_keys : (private public : Bytes) → KeysMatch toy private public
toy_keys private public = record { accepts = λ payload signature e. refl }

abbrev pub value_of {ℓ} : {A : Type ℓ} → A → Result A → A
value_of other (ok a) = a
value_of other (err e) = other

-- ===== src/Crypto.antt =====
-- The cryptographic code that the program calls and does not implement (cryptography, PyNaCl,
-- hashlib), as a record of operations, with its documented behaviour as a record of laws.
-- Child: the program's own wrappers (wassupweb/utils/crypto.py).
pub mod Wrappers
use wassupweb.Prelude.{ℕ, ◌≡◌, Bool, true, Bytes, Result, ok, length}

pub record Primitives : Type 0 where
  -- hmac.new(key, message, sha256).digest()
  pub hmac_sha256 : Bytes → Bytes → Bytes
  pub sha256 : Bytes → Bytes
  -- HKDF(SHA256, length=64, salt, info).derive(seed), in the order seed, salt, info
  pub hkdf_derive : Bytes → Bytes → Bytes → Bytes
  -- AES-CBC under PKCS7 padding: key, iv, text
  pub cbc_encrypt : Bytes → Bytes → Bytes → Result Bytes
  pub cbc_decrypt : Bytes → Bytes → Bytes → Result Bytes
  -- AES-GCM: key, iv, additional data, text; the tag is the last 16 bytes of the sealed text
  pub gcm_encrypt : Bytes → Bytes → Bytes → Bytes → Bytes
  pub gcm_decrypt : Bytes → Bytes → Bytes → Bytes → Result Bytes
  -- SigningKey(private).sign(payload).signature, and VerifyKey(public).verify(message, signature)
  pub ed25519_sign : Bytes → Bytes → Result Bytes
  pub ed25519_verify : Bytes → Bytes → Bytes → Bool

-- A sealed text opens under the same key, initialisation vector and additional data.
pub record IsCipher (p : Primitives) : Type 0 where
  pub cbc_open :
      (key iv text sealed : Bytes)
      → p.cbc_encrypt key iv text ≡ ok sealed
      → p.cbc_decrypt key iv sealed ≡ ok text
  pub gcm_open :
      (key iv aad text : Bytes) → p.gcm_decrypt key iv aad (p.gcm_encrypt key iv aad text) ≡ ok text

-- A signature has 64 bytes.
pub record IsSignature (p : Primitives) : Type 0 where
  pub length-sign :
      (private payload signature : Bytes)
      → p.ed25519_sign private payload ≡ ok signature
      → length signature ≡ 64

-- SHA-256 digests have 32 bytes.
pub record IsDigest (p : Primitives) : Type 0 where
  pub length-hmac : (key message : Bytes) → length (p.hmac_sha256 key message) ≡ 32

-- `public` is the key that belongs to `private`: what the one signs the other accepts.
pub record KeysMatch (p : Primitives) (private public : Bytes) : Type 0 where
  pub accepts :
      (payload signature : Bytes)
      → p.ed25519_sign private payload ≡ ok signature
      → p.ed25519_verify public payload signature ≡ true

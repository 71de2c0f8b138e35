-- ===== src/Noise/Cert.antt =====
-- The certificate check of wassupweb/utils/noise_handler.py: `_verify_noise_cert_chain`. The
-- protobuf classes are generated code: whether they can be loaded, and their parsers, are parameters.
use wassupweb.Prelude.{
  ℕ, Bool, true, false, not, ◌||◌, Option, none, some, [], ◌∷◌, ◌==◌, if◌then◌else◌, Bytes, Result,
  ◌>>=◌, ok, err, value_error,
}
use wassupweb.Text.{Text, text_eq}
use wassupweb.Crypto.{Primitives}
use wassupweb.Crypto.Wrappers.{curve_verify}

-- `CertChain`: the details and the signature of both certificates.
pub record CertChain : Type 0 where
  pub intermediate : Option (Bytes × Bytes)
  pub leaf_details : Bytes
  pub leaf_signature : Bytes

pub record CertDetails : Type 0 where
  pub issuer_serial : Option ℕ
  pub issuer : Option Text
  pub key : Bytes

-- The generated classes, `none` where they are missing, and `WA_CERT_DETAILS`.
pub record Statics : Type 0 where
  pub cert_chain : Option (Bytes → Result CertChain)
  pub details : Option (Bytes → Result CertDetails)
  pub public_key : Bytes
  pub serial : ℕ
  pub issuer_name : Text

abbrev pub is_empty : Bytes → Bool
is_empty [] = true
is_empty (b ∷ bytes) = false

unfoldable pub check_issuer : Statics → CertDetails → Result (Unit {0})
check_issuer w d = elim d.issuer_serial [
  | some serial ↦
      if serial == w.serial then ok tt else err (value_error "certification match failed")
  | none ↦ elim d.issuer [
    | some name ↦
        if text_eq name w.issuer_name then ok tt else err (value_error "certification match failed")
    | none ↦ ok tt
  ]
]

module _ (p : Primitives) (w : Statics) (strict : Bool) where
  -- A signature that fails is an error under `strict`, and else only ends the check.
  unfoldable pub check_signatures : CertChain → Bytes → Bytes → CertDetails → Result (Unit {0})
  check_signatures c details signature d =
      if not (curve_verify p d.key c.leaf_details c.leaf_signature)
      then (if strict then err (value_error "noise certificate signature invalid") else ok tt)
      else if not (curve_verify p w.public_key details signature)
      then (if strict
          then err (value_error "noise intermediate certificate signature invalid")
          else ok tt)
      else check_issuer w d

  unfoldable pub check_details :
      Option (Bytes → Result CertDetails) → CertChain → Bytes → Bytes → Result (Unit {0})
  check_details none c details signature =
      err (value_error "noise certificate details type missing")
  check_details (some parse) c details signature =
      parse details >>= check_signatures c details signature

  unfoldable pub check_parts : Option (Bytes × Bytes) → CertChain → Result (Unit {0})
  unfolding check_details
  check_parts none c = err (value_error "invalid noise leaf certificate")
  check_parts (some (details, signature)) c =
      if is_empty c.leaf_details || is_empty c.leaf_signature
      then err (value_error "invalid noise leaf certificate")
      else if is_empty details || is_empty signature
      then err (value_error "invalid noise intermediate certificate")
      else check_details w.details c details signature

  unfoldable pub check_chain : CertChain → Result (Unit {0})
  unfolding check_parts
  check_chain c = check_parts c.intermediate c

  -- With no generated classes the check is left out.
  unfoldable pub check_payload : Option (Bytes → Result CertChain) → Bytes → Result (Unit {0})
  unfolding check_chain
  check_payload none payload = ok tt
  check_payload (some parse) payload = parse payload >>= check_chain

  unfoldable pub verify_noise_cert_chain : Bytes → Result (Unit {0})
  unfolding check_payload
  verify_noise_cert_chain payload = check_payload w.cert_chain payload

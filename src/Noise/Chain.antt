-- ===== src/Noise/Chain.antt =====
-- What `_verify_noise_cert_chain` of wassupweb/utils/noise_handler.py has checked when it returns.
use wassupweb.Prelude.{
  ◌≡◌, refl, sym, ap, ◌∙◌, ◌⊎◌, inl, inr, Bool, true, false, not, ◌||◌, Option, none, some, ◌==◌,
  if◌then◌else◌, ==_iff, Option-cases, Bytes, Exception, Result, ok, err, value_error, >>=-eq-ok,
}
use wassupweb.Text.{text_eq, text_eq_iff}
use wassupweb.Crypto.{Primitives}
use wassupweb.Crypto.Wrappers.{curve_verify}
use wassupweb.Noise.Cert.{
  CertChain, CertDetails, Statics, is_empty, check_issuer, check_signatures, check_details,
  check_parts, check_chain, check_payload, verify_noise_cert_chain,
}

module _ (p : Primitives) (w : Statics) where
  -- The issuer that the details name: the serial decides if there is one, and else the name; details
  -- that name neither pass.
  abbrev pub IsIssued : CertDetails → Type 0
  IsIssued d =
      (d.issuer_serial ≡ some w.serial)
      ⊎ ((d.issuer_serial ≡ none) × ((d.issuer ≡ some w.issuer_name) ⊎ (d.issuer ≡ none)))

  -- The payload is a certificate chain whose two signatures verify, the leaf's under the key in the
  -- intermediate's details, and whose details name no other issuer.
  pub record Trusted (payload : Bytes) : Type 0 where
    pub parse : Bytes → Result CertChain
    pub parse_details : Bytes → Result CertDetails
    pub chain : CertChain
    pub details : Bytes
    pub signature : Bytes
    pub parsed : CertDetails
    pub has_chain : w.cert_chain ≡ some parse
    pub has_details : w.details ≡ some parse_details
    pub is_chain : parse payload ≡ ok chain
    pub is_intermediate : chain.intermediate ≡ some (details, signature)
    pub is_details : parse_details details ≡ ok parsed
    pub leaf : curve_verify p parsed.key chain.leaf_details chain.leaf_signature ≡ true
    pub root : curve_verify p w.public_key details signature ≡ true
    pub issuer : IsIssued parsed

  passed :
      (test : Bool) (x : Exception)
      → Path (Result (Unit {0})) (if test then ok tt else err x) (ok tt)
      → test ≡ true
  passed true x e = refl
  passed false x e = cc

  check_issuer-IsIssued : (d : CertDetails) → check_issuer w d ≡ ok tt → IsIssued d
  unfolding check_issuer
  check_issuer-IsIssued d e = elim (Option-cases d.issuer_serial) [
    | inr (serial, named) ↦
        let same = passed (serial == w.serial) _ (rw (check_issuer, named) at e) in
        inl (named ∙ ap some ((==_iff serial w.serial).0 same))
    | inl unnamed ↦ elim (Option-cases d.issuer) [
      | inl nobody ↦ inr (unnamed, inr nobody)
      | inr (name, issued) ↦
          let same =
            passed (text_eq name w.issuer_name) _ (rw (check_issuer, unnamed, issued) at e) in
          inr (unnamed, inl (issued ∙ ap some ((text_eq_iff name w.issuer_name).0 same)))
    ]
  ]

  -- Both tests passed, and so did what follows.
  both_pass :
      (a b : Bool) (x y : Exception) (r : Result (Unit {0}))
      → (if not a then err x else if not b then err y else r) ≡ ok tt
      → (a ≡ true) × (b ≡ true) × (r ≡ ok tt)
  both_pass true true x y r e = (refl, refl, e)
  both_pass true false x y r e = (refl, cc, cc)
  both_pass false b x y r e = (cc, cc, cc)

  neither_fails :
      (a b : Bool) (x y : Exception) (r : Result (Unit {0}))
      → (if a then err x else if b then err y else r) ≡ ok tt
      → r ≡ ok tt
  neither_fails false false x y r e = e
  neither_fails false true x y r e = cc
  neither_fails true b x y r e = cc

  check_signatures-strict :
      (c : CertChain) (details signature : Bytes) (d : CertDetails)
      → check_signatures p w true c details signature d ≡ ok tt
      → (curve_verify p d.key c.leaf_details c.leaf_signature ≡ true)
        × (curve_verify p w.public_key details signature ≡ true)
        × (check_issuer w d ≡ ok tt)
  unfolding check_signatures
  check_signatures-strict c details signature d e =
      both_pass (curve_verify p d.key c.leaf_details c.leaf_signature)
        (curve_verify p w.public_key details signature) _ _ (check_issuer w d) e

  check_details-strict :
      (o : Option (Bytes → Result CertDetails)) (payload : Bytes) (parse : Bytes → Result CertChain)
      (c : CertChain) (details signature : Bytes)
      → w.cert_chain ≡ some parse
      → w.details ≡ o
      → parse payload ≡ ok c
      → c.intermediate ≡ some (details, signature)
      → check_details p w true o c details signature ≡ ok tt
      → Trusted payload
  unfolding check_details
  check_details-strict none payload parse c details signature loaded reader read found e = cc
  check_details-strict (some parse_details) payload parse c details signature loaded reader read
        found e =
      let (d, parsed, checked) = >>=-eq-ok (parse_details details) _ e in
      let (leaf, root, issuer) = check_signatures-strict c details signature d checked in
      record {
        parse = parse;
        parse_details = parse_details;
        chain = c;
        details = details;
        signature = signature;
        parsed = d;
        has_chain = loaded;
        has_details = reader;
        is_chain = read;
        is_intermediate = found;
        is_details = parsed;
        leaf = leaf;
        root = root;
        issuer = check_issuer-IsIssued d issuer;
      }

  check_parts-strict :
      (o : Option (Bytes × Bytes)) (payload : Bytes) (parse : Bytes → Result CertChain)
      (c : CertChain)
      → w.cert_chain ≡ some parse
      → parse payload ≡ ok c
      → c.intermediate ≡ o
      → check_parts p w true o c ≡ ok tt
      → Trusted payload
  unfolding check_parts
  check_parts-strict none payload parse c loaded read found e = cc
  check_parts-strict (some (details, signature)) payload parse c loaded read found e =
      check_details-strict w.details payload parse c details signature loaded refl read found (
        neither_fails (is_empty c.leaf_details || is_empty c.leaf_signature)
          (is_empty details || is_empty signature) (value_error "invalid noise leaf certificate")
          (value_error "invalid noise intermediate certificate")
          (check_details p w true w.details c details signature) e)

  -- Where the generated classes are loaded and validation is strict, a payload is accepted only if it
  -- is a chain to be trusted.
  pub verify_noise_cert_chain-Trusted :
      (payload : Bytes) (parse : Bytes → Result CertChain)
      → w.cert_chain ≡ some parse
      → verify_noise_cert_chain p w true payload ≡ ok tt
      → Trusted payload
  unfolding verify_noise_cert_chain check_payload check_chain
  verify_noise_cert_chain-Trusted payload parse e checked =
      let loaded : check_payload p w true (some parse) payload ≡ ok tt =
        ap (λ o. check_payload p w true o payload) (sym e) ∙ checked in
      let (c, parsed, rest) = >>=-eq-ok (parse payload) _ loaded in
      check_parts-strict c.intermediate payload parse c e parsed refl rest

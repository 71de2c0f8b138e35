-- ===== src/Noise/Trust.antt =====
-- What a handshake that succeeds has checked.
use wassupweb.Prelude.{
  ◌+◌, ◌≡◌, refl, sym, ap, ◌∙◌, inl, inr, Bool, true, Option, none, some, Option-cases, Bytes,
  Result, ok, ok-injective, Result-cases, >>=-eq-ok,
}
use wassupweb.Crypto.{Primitives}
use wassupweb.Noise.State.{
  NoiseHandler, authenticate, mix_into_key, local_hkdf, decrypt, transport_decrypt, generate_iv,
}
use wassupweb.Noise.Cert.{CertChain, Statics, verify_noise_cert_chain}
use wassupweb.Noise.Handshake.{
  ServerHello, mix_shared, run_handshake, with_fields, process_handshake,
}
use wassupweb.Noise.Chain.{Trusted, verify_noise_cert_chain-Trusted}

module _ (p : Primitives) (w : Statics) where
  -- The handler's flag stays the same in everything that the handshake does.
  strict-authenticate :
      (bytes : Bytes) (h : NoiseHandler) → (authenticate p bytes h).strict ≡ h.strict
  unfolding authenticate
  strict-authenticate bytes h = elim (Option-cases h.transport) [
    | inl e ↦ rw (authenticate, e) refl
    | inr (t, e) ↦ rw (authenticate, e) refl
  ]

  strict-decrypt : (c : Bytes) (h : NoiseHandler) → (decrypt p c h).1.strict ≡ h.strict
  unfolding decrypt transport_decrypt
  strict-decrypt c h = elim (Option-cases h.transport) [
    | inr (t, e) ↦ rw (decrypt, e) refl
    | inl e ↦ elim (Result-cases (p.gcm_decrypt h.dec_key (generate_iv h.counter) h.hash c)) [
      | inr (x, refused) ↦ rw (decrypt, e, decrypt, refused) refl
      | inl (m, opened) ↦
          rw (decrypt, e, decrypt, opened)
            (strict-authenticate c (record h { counter = h.counter + 1 }))
    ]
  ]

  module _ (shared_key : Bytes → Bytes → Result Bytes) where
    -- How the handler comes to the payload's text: under the keys that the ephemeral key and then the
    -- decrypted static key of the server lead to.
    pub record IsOpened (ephemeral static payload : Bytes) (h : NoiseHandler) (decoded : Bytes)
        : Type 0 where
      pub after_ephemeral : NoiseHandler
      pub static_key : Bytes
      pub after_static : NoiseHandler
      pub first_mixed :
          mix_shared p shared_key w h.private_key ephemeral (authenticate p ephemeral h)
          ≡ ok after_ephemeral
      pub static_opened : (decrypt p static after_ephemeral).0 ≡ ok static_key
      pub second_mixed :
          mix_shared p shared_key w
            (decrypt p static after_ephemeral).1.private_key
            static_key
            (decrypt p static after_ephemeral).1
          ≡ ok after_static
      pub payload_opened : (decrypt p payload after_static).0 ≡ ok decoded

    strict-mix_shared :
        (private public : Bytes) (h h' : NoiseHandler)
        → mix_shared p shared_key w private public h ≡ ok h'
        → h'.strict ≡ h.strict
    unfolding mix_shared mix_into_key local_hkdf
    strict-mix_shared private public h h' e =
        let (secret, made, same) = >>=-eq-ok (shared_key private public) _ e in
        ap (λ (x : NoiseHandler). x.strict) (sym (ok-injective same))

    run_handshake-Trusted :
        (ephemeral static payload private public : Bytes) (h : NoiseHandler)
        (r : Bytes × NoiseHandler) (parse : Bytes → Result CertChain)
        → h.strict ≡ true
        → w.cert_chain ≡ some parse
        → run_handshake p shared_key w ephemeral static payload private public h ≡ ok r
        → (decoded : Bytes) × IsOpened ephemeral static payload h decoded × Trusted p w decoded
    unfolding run_handshake
    run_handshake-Trusted ephemeral static payload private public h r parse strict loaded e =
        let h0 = authenticate p ephemeral h in
        let (h1, e1, rest1) =
          >>=-eq-ok (mix_shared p shared_key w h.private_key ephemeral h0) _ e in
        let h2 = (decrypt p static h1).1 in
        let (key, e2, rest2) = >>=-eq-ok (decrypt p static h1).0 _ rest1 in
        let (h3, e3, rest3) = >>=-eq-ok (mix_shared p shared_key w h2.private_key key h2) _ rest2 in
        let h4 = (decrypt p payload h3).1 in
        let (decoded, e4, rest4) = >>=-eq-ok (decrypt p payload h3).0 _ rest3 in
        let (done, e5, rest5) = >>=-eq-ok (verify_noise_cert_chain p w h4.strict decoded) _ rest4 in
        let flag : h4.strict ≡ true =
          strict-decrypt payload h3
          ∙ strict-mix_shared h2.private_key key h2 h3 e3
          ∙ strict-decrypt static h1
          ∙ strict-mix_shared h.private_key ephemeral h0 h1 e1
          ∙ strict-authenticate ephemeral h
          ∙ strict in
        (
          decoded,
          record {
            after_ephemeral = h1;
            static_key = key;
            after_static = h3;
            first_mixed = e1;
            static_opened = e2;
            second_mixed = e3;
            payload_opened = e4;
          },
          verify_noise_cert_chain-Trusted p w decoded parse loaded
              (ap (λ (b : Bool). verify_noise_cert_chain p w b decoded) (sym flag) ∙ e5),
        )

    with_fields-Trusted :
        (a b c : Option Bytes) (private public : Bytes) (h : NoiseHandler)
        (r : Bytes × NoiseHandler) (parse : Bytes → Result CertChain)
        → h.strict ≡ true
        → w.cert_chain ≡ some parse
        → with_fields p shared_key w a b c private public h ≡ ok r
        → (ephemeral : Bytes) × (static : Bytes) × (payload : Bytes) × (decoded : Bytes) × (a
            ≡ some ephemeral)
          × (b ≡ some static)
          × (c ≡ some payload)
          × IsOpened ephemeral static payload h decoded
          × Trusted p w decoded
    unfolding with_fields
    with_fields-Trusted none b c private public h r parse strict loaded e = cc
    with_fields-Trusted (some x) none c private public h r parse strict loaded e = cc
    with_fields-Trusted (some x) (some y) none private public h r parse strict loaded e = cc
    with_fields-Trusted (some x) (some y) (some z) private public h r parse strict loaded e =
        let (decoded, opened, trusted) =
          run_handshake-Trusted x y z private public h r parse strict loaded e in
        (x, y, z, decoded, refl, refl, refl, opened, trusted)

    -- A strict handler with the generated classes loaded ends the handshake only if the hello has its
    -- three fields, its payload is opened under the keys of the ephemeral and the static key, and the
    -- text of the payload is a certificate chain to be trusted: the leaf's signature verifies under the
    -- key of the intermediate's details, the intermediate's under the built-in key, and the details
    -- name the built-in issuer or none at all.
    pub process_handshake-Trusted :
        (hello : ServerHello) (private public : Bytes) (h : NoiseHandler) (r : Bytes × NoiseHandler)
        (parse : Bytes → Result CertChain)
        → h.strict ≡ true
        → w.cert_chain ≡ some parse
        → process_handshake p shared_key w hello private public h ≡ ok r
        → (ephemeral : Bytes) × (static : Bytes) × (payload : Bytes) × (decoded : Bytes)
          × (hello.ephemeral ≡ some ephemeral)
          × (hello.static_key ≡ some static)
          × (hello.payload ≡ some payload)
          × IsOpened ephemeral static payload h decoded
          × Trusted p w decoded
    unfolding process_handshake
    process_handshake-Trusted hello private public h r parse strict loaded e =
        with_fields-Trusted hello.ephemeral hello.static_key hello.payload private public h r parse
          strict loaded e

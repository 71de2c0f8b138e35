-- ===== src/Group/Message/RoundTrip.antt =====
-- A group message is read back as it was built, and its signature is accepted.
use wassupweb.Prelude.{
  ℕ, zero, suc, ◌≤◌, ◌<◌, ◌≡◌, refl, sym, ap, ◌∙◌, [], ◌∷◌, ◌++◌, arith, le→ltb, Bytes, length,
  take, drop, length-append, take-length-append, drop-length-append, take-length, Result, ◌>>=◌,
  >>=-eq-ok, ok-injective, ok,
}
use wassupweb.Crypto.{Primitives, IsSignature, KeysMatch}
use wassupweb.Crypto.Wrappers.{curve_sign, curve_verify}
use wassupweb.Group.State.{SenderKeyState, get_signing_key_public}
use wassupweb.Bytes.{pack_u32, pack_u32_lem, pack_u32_inv, u32_mod, u32_bytes, unpack-pack}
use wassupweb.Group.Message.{
  SenderKeyMessage, but_signature, signature_of, parse_message, get_signature, make_message,
  verify_signature,
}

abbrev pub body_of : ℕ → ℕ → Bytes → Bytes
body_of key_id iteration ciphertext =
    0x33
    ∷ (u32_bytes key_id ++ (u32_bytes iteration ++ (u32_bytes (length ciphertext) ++ ciphertext)))

-- The parts of a message that was built with the signature `signature`.
abbrev pub message : ℕ → ℕ → Bytes → Bytes → SenderKeyMessage
message key_id iteration ciphertext signature = record {
  serialized = body_of key_id iteration ciphertext ++ signature;
  message_version = 3;
  key_id = key_id;
  iteration = iteration;
  ciphertext = ciphertext;
  signature = signature;
}

but_signature-append :
    (body signature : Bytes) → length signature ≡ 64 → but_signature (body ++ signature) ≡ body
unfolding but_signature
but_signature-append body signature h =
    ap (λ (n : ℕ). take n (body ++ signature)) (omega (arith, length-append body signature))
    ∙ take-length-append body signature

signature_of-append :
    (body signature : Bytes) → length signature ≡ 64 → signature_of (body ++ signature) ≡ signature
unfolding signature_of
signature_of-append body signature h =
    ap (λ (n : ℕ). drop n (body ++ signature)) (omega (arith, length-append body signature))
    ∙ drop-length-append body signature

parse_signed :
    (key_id iteration : ℕ) (ciphertext signature : Bytes)
    → key_id < u32_mod
    → iteration < u32_mod
    → length ciphertext < u32_mod
    → length signature ≡ 64
    → parse_message (body_of key_id iteration ciphertext ++ signature)
      ≡ ok (message key_id iteration ciphertext signature)
unfolding parse_message
parse_signed key_id iteration ciphertext signature hi ht hc hs =
    let body = body_of key_id iteration ciphertext in
    let long : 77 ≤ length (body ++ signature) =
      omega (arith, length-append ciphertext signature) in
    rw (
      le→ltb (length (body ++ signature)) 77 long,
      but_signature-append body signature hs,
      signature_of-append body signature hs,
      unpack-pack key_id body _ 1 hi refl,
      unpack-pack iteration body _ 5 ht refl,
      unpack-pack (length ciphertext) body ciphertext 9 hc refl,
      take-length ciphertext,
    )

take-take : (n : ℕ) (xs : Bytes) → take n (take n xs) ≡ take n xs
take-take zero xs = refl
take-take (suc n) [] = refl
take-take (suc n) (x ∷ xs) = ap (λ t. x ∷ t) (take-take n xs)

get_signature_lem :
    (p : Primitives) (private body : Bytes)
    → get_signature p private body ≡ p.ed25519_sign (take 32 private) body
unfolding get_signature curve_sign
get_signature_lem p private body = ap (λ key. p.ed25519_sign key body) (take-take 32 private)

curve_verify_lem :
    (p : Primitives) (public body signature : Bytes)
    → length public ≡ 32
    → curve_verify p public body signature ≡ p.ed25519_verify public body signature
unfolding curve_verify
curve_verify_lem p public body signature h = rw (h, curve_verify)

module _ (p : Primitives) (key_id iteration : ℕ) (ciphertext private : Bytes) where
  -- What a built message is: its parts, with a signature of its body under the private key.
  pub record IsMade (m : SenderKeyMessage) : Type 0 where
    pub signature : Bytes
    pub id_fits : key_id < u32_mod
    pub iteration_fits : iteration < u32_mod
    pub length_fits : length ciphertext < u32_mod
    pub signed :
        p.ed25519_sign (take 32 private) (body_of key_id iteration ciphertext) ≡ ok signature
    pub parts : m ≡ message key_id iteration ciphertext signature

  make_fits :
      (m : SenderKeyMessage)
      → make_message p key_id iteration ciphertext private ≡ ok m
      → (key_id < u32_mod) × (iteration < u32_mod) × (length ciphertext < u32_mod)
  unfolding make_message
  make_fits m e =
      let (b1, e1, r1) = >>=-eq-ok (pack_u32 key_id) _ e in
      let (b2, e2, r2) = >>=-eq-ok (pack_u32 iteration) _ r1 in
      let (b3, e3, r3) = >>=-eq-ok (pack_u32 (length ciphertext)) _ r2 in
      (
        (pack_u32_inv key_id b1 e1).0,
        (pack_u32_inv iteration b2 e2).0,
        (pack_u32_inv (length ciphertext) b3 e3).0,
      )

  -- With numbers in range only the signing is left to fail.
  make_signed :
      key_id < u32_mod
      → iteration < u32_mod
      → length ciphertext < u32_mod
      → make_message p key_id iteration ciphertext private ≡ (
          p.ed25519_sign (take 32 private) (body_of key_id iteration ciphertext) >>= λ signature.
          ok (message key_id iteration ciphertext signature))
  unfolding make_message
  make_signed hi ht hc =
      rw (pack_u32_lem key_id hi, pack_u32_lem iteration ht, pack_u32_lem (length ciphertext) hc)
        (ap
          (λ (r : Result Bytes).
            r >>= λ signature. ok (message key_id iteration ciphertext signature))
          (get_signature_lem p private (body_of key_id iteration ciphertext)))

  pub make_message-IsMade :
      (m : SenderKeyMessage) → make_message p key_id iteration ciphertext private ≡ ok m → IsMade m
  make_message-IsMade m e =
      let (hi, ht, hc) = make_fits m e in
      let (signature, signed, r) =
        >>=-eq-ok (p.ed25519_sign (take 32 private) (body_of key_id iteration ciphertext)) _
          (sym (make_signed hi ht hc) ∙ e) in
      record {
        signature = signature;
        id_fits = hi;
        iteration_fits = ht;
        length_fits = hc;
        signed = signed;
        parts = sym (ok-injective r);
      }

  -- Where signatures have 64 bytes: a group message that can be built is read back as it was, and
  -- the parts that are read are those that it was built from.
  pub parse-make_message :
      (m : SenderKeyMessage)
      → IsSignature p
      → make_message p key_id iteration ciphertext private ≡ ok m
      → (parse_message m.serialized ≡ ok m)
        × (m.key_id ≡ key_id)
        × (m.iteration ≡ iteration)
        × (m.ciphertext ≡ ciphertext)
  parse-make_message m sig e =
      let d = make_message-IsMade m e in
      rw d.parts (
        parse_signed key_id iteration ciphertext d.signature d.id_fits d.iteration_fits
            d.length_fits (sig.length-sign _ _ d.signature d.signed),
        refl,
        refl,
        refl,
      )

  -- Where signatures have 64 bytes: the signature of a group message that was built is accepted by a
  -- state whose public key, of 32 bytes under a version byte 5, belongs to the private key.
  pub verify-make_message :
      (m : SenderKeyMessage) (s : SenderKeyState) (public : Bytes)
      → IsSignature p
      → KeysMatch p (take 32 private) public
      → length public ≡ 32
      → get_signing_key_public s ≡ 5 ∷ public
      → make_message p key_id iteration ciphertext private ≡ ok m
      → verify_signature p m s ≡ ok tt
  unfolding verify_signature
  verify-make_message m s public sig match h own e =
      let d = make_message-IsMade m e in
      let size = sig.length-sign _ _ d.signature d.signed in
      rw (own, d.parts)
        (rw (
          but_signature-append (body_of key_id iteration ciphertext) d.signature size,
          signature_of-append (body_of key_id iteration ciphertext) d.signature size,
          h,
          curve_verify_lem p public _ _ h,
          match.accepts _ _ d.signed,
        ))

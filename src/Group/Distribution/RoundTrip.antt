-- ===== src/Group/Distribution/RoundTrip.antt =====
-- The distribution message is read back as it was built.
use wassupweb.Prelude.{
  ℕ, ◌+◌, ◌<◌, ◌≡◌, refl, sym, ap, ◌∙◌, ◌∷◌, ◌++◌, arith, Bytes, length, drop, take-length-append,
  drop-length-append, drop-add, take-length, >>=-eq-ok, ok-injective, ok,
}
use wassupweb.Bytes.{u32_mod, u32_bytes, pack_u32, pack_u32_lem, pack_u32_inv, unpack-pack}
use wassupweb.Group.Distribution.{DistributionMessage, make_distribution, parse_distribution}

-- The wire format, in plain arithmetic.
abbrev layout : ℕ → ℕ → Bytes → Bytes → Bytes
layout key_id iteration chain_key signature_key =
    0x33
    ∷ (u32_bytes key_id
        ++ (u32_bytes iteration
            ++ (u32_bytes (length chain_key)
                ++ (chain_key ++ (u32_bytes (length signature_key) ++ signature_key)))))

abbrev message : ℕ → ℕ → Bytes → Bytes → DistributionMessage
message key_id iteration chain_key signature_key = record {
  serialized = layout key_id iteration chain_key signature_key;
  id = key_id;
  iteration = iteration;
  chain_key = chain_key;
  signature_key = signature_key;
}

module _ (key_id iteration : ℕ) (chain_key signature_key : Bytes) where
  abbrev Fits : Type 0
  Fits =
      (key_id < u32_mod)
      × (iteration < u32_mod)
      × (length chain_key < u32_mod)
      × (length signature_key < u32_mod)

  -- A distribution message is built exactly in this form, if its numbers and lengths are below 2^32.
  make_layout :
      Fits
      → make_distribution key_id iteration chain_key signature_key
        ≡ ok (message key_id iteration chain_key signature_key)
  unfolding make_distribution
  make_layout (hi, ht, hc, hs) = rw (
    pack_u32_lem key_id hi,
    pack_u32_lem iteration ht,
    pack_u32_lem (length chain_key) hc,
    pack_u32_lem (length signature_key) hs,
  )

  make_fits :
      (m : DistributionMessage)
      → make_distribution key_id iteration chain_key signature_key ≡ ok m
      → Fits
  unfolding make_distribution
  make_fits m e =
      let (b1, e1, r1) = >>=-eq-ok (pack_u32 key_id) _ e in
      let (b2, e2, r2) = >>=-eq-ok (pack_u32 iteration) _ r1 in
      let (b3, e3, r3) = >>=-eq-ok (pack_u32 (length chain_key)) _ r2 in
      let (b4, e4, r4) = >>=-eq-ok (pack_u32 (length signature_key)) _ r3 in
      (
        (pack_u32_inv key_id b1 e1).0,
        (pack_u32_inv iteration b2 e2).0,
        (pack_u32_inv (length chain_key) b3 e3).0,
        (pack_u32_inv (length signature_key) b4 e4).0,
      )

  parse_layout :
      Fits
      → parse_distribution (layout key_id iteration chain_key signature_key)
        ≡ ok (message key_id iteration chain_key signature_key)
  unfolding parse_distribution
  parse_layout (hi, ht, hc, hs) =
      let bytes = layout key_id iteration chain_key signature_key in
      let behind : Bytes = u32_bytes (length signature_key) ++ signature_key in
      let at_length : drop (13 + length chain_key) bytes ≡ behind =
        drop-add 13 (length chain_key) bytes ∙ drop-length-append chain_key behind in
      let at_key : drop (17 + length chain_key) bytes ≡ signature_key =
        ap (λ (k : ℕ). drop k bytes) (omega arith)
        ∙ drop-add (13 + length chain_key) 4 bytes
        ∙ ap (λ (b : Bytes). drop 4 b) at_length in
      rw (
        unpack-pack key_id bytes _ 1 hi refl,
        unpack-pack iteration bytes _ 5 ht refl,
        unpack-pack (length chain_key) bytes _ 9 hc refl,
        unpack-pack (length signature_key) bytes signature_key (13 + length chain_key) hs at_length,
        take-length-append chain_key behind,
        at_key,
        take-length signature_key,
      )

  -- A distribution message that can be built at all is read back as it was: the same bytes, id,
  -- iteration, chain key and signing key.
  pub parse-make_distribution :
      (m : DistributionMessage)
      → make_distribution key_id iteration chain_key signature_key ≡ ok m
      → (parse_distribution m.serialized ≡ ok m)
        × (m.id ≡ key_id)
        × (m.iteration ≡ iteration)
        × (m.chain_key ≡ chain_key)
        × (m.signature_key ≡ signature_key)
  parse-make_distribution m e =
      let h = make_fits m e in
      let same = ok-injective (sym (make_layout h) ∙ e) in
      rw (← same) (parse_layout h, refl, refl, refl, refl)

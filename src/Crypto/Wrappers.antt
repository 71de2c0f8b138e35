-- ===== src/Crypto/Wrappers.antt =====
-- wassupweb/utils/crypto.py: `Curve.sign`, `Curve.verify`, `hkdf`, `generate_signal_pub_key`.
use wassupweb.Prelude.{
  ℕ, zero, suc, ◌+◌, ◌*◌, ◌≤◌, ◌<◌, ◌≡◌, refl, inl, inr, Bool, true, [], ◌∷◌, ◌++◌, arith, ltb,
  ◌==◌, if◌then◌else◌, ltb→lt, Bool-cases, ltb→le, Bytes, length, take, drop, replicate,
  length-append, length-take, Result, ◌>>=◌, ok, err, value_error,
}
use wassupweb.Crypto.{Primitives, IsDigest}

-- `pub_key if len(pub_key) == 33 else b"\x05" + pub_key`
unfoldable pub generate_signal_pub_key : Bytes → Bytes
generate_signal_pub_key key = if length key == 33 then key else 5 ∷ key

module _ (p : Primitives) where
  unfoldable pub curve_sign : Bytes → Bytes → Result Bytes
  curve_sign private payload = p.ed25519_sign (take 32 private) payload

  -- A 33-byte key loses its version byte; any other long key is cut to 32 bytes. What
  -- `VerifyKey` raises is a failed verification.
  unfoldable pub curve_verify : Bytes → Bytes → Bytes → Bool
  curve_verify public message signature =
      let key =
        if length public == 33
        then drop 1 public
        else if ltb 32 (length public)
        then take 32 public
        else public in
      p.ed25519_verify key message signature

  -- `while len(okm) < length`: one block of the key stream a round. `bytes([counter])` raises where
  -- the counter is no byte.
  unfoldable pub hkdf_loop : ℕ → Bytes → Bytes → Bytes → Bytes → ℕ → ℕ → Result Bytes
  hkdf_loop zero prk info t okm counter size = ok okm
  hkdf_loop (suc fuel) prk info t okm counter size =
      let block = p.hmac_sha256 prk (t ++ (info ++ (counter ∷ []))) in
      let rest = hkdf_loop fuel prk info block (okm ++ block) (suc counter) size in
      if ltb (length okm) size
      then (if ltb counter 256 then rest else err (value_error "bytes must be in range(0, 256)"))
      else ok okm

  -- Every block has a byte at least, so `size` rounds are enough.
  unfoldable pub hkdf : Bytes → ℕ → Bytes → Bytes → Result Bytes
  unfolding hkdf_loop
  hkdf key_material size salt info =
      let salt' = if length salt == 0 then replicate 32 0 else salt in
      let prk = p.hmac_sha256 salt' key_material in
      do okm ← hkdf_loop size prk info [] [] 1 size; ok (take size okm)

  hkdf_loop_reaches :
      (fuel : ℕ) (prk info t okm : Bytes) (blocks size : ℕ)
      → IsDigest p
      → length okm ≡ 32 * blocks
      → size ≤ 8160
      → size ≤ length okm + fuel
      → (b : Bytes) × (hkdf_loop fuel prk info t okm (suc blocks) size ≡ ok b) × (size ≤ length b)
  unfolding hkdf_loop
  hkdf_loop_reaches zero prk info t okm blocks size d full bound h = (okm, refl, omega arith)
  hkdf_loop_reaches (suc fuel) prk info t okm blocks size d full bound h =
      let block = p.hmac_sha256 prk (t ++ (info ++ (suc blocks ∷ []))) in
      let wide = d.length-hmac prk (t ++ (info ++ (suc blocks ∷ []))) in
      let grown = length-append okm block in
      elim (Bool-cases (ltb (length okm) size)) [
        | inr long ↦ (okm, rw long refl, ltb→le (length okm) size long)
        | inl short ↦
            let less = ltb→lt (length okm) size short in
            let (b, made, reach) =
              hkdf_loop_reaches fuel prk info block (okm ++ block) (suc blocks) size d
                (omega (arith, wide, grown)) bound (omega (arith, wide, grown)) in
            let is_byte : ltb (suc blocks) 256 ≡ true = ground (arith) in
            (b, rw (short, is_byte) made, reach)
      ]

  hkdf_loop_fails :
      (fuel : ℕ) (prk info t okm : Bytes) (blocks size : ℕ)
      → IsDigest p
      → length okm ≡ 32 * blocks
      → blocks ≤ 255
      → 8160 < size
      → size ≤ length okm + fuel
      → hkdf_loop fuel prk info t okm (suc blocks) size
        ≡ err (value_error "bytes must be in range(0, 256)")
  unfolding hkdf_loop
  hkdf_loop_fails zero prk info t okm blocks size d full few big h = absurd (omega arith)
  hkdf_loop_fails (suc fuel) prk info t okm blocks size d full few big h =
      let block = p.hmac_sha256 prk (t ++ (info ++ (suc blocks ∷ []))) in
      let wide = d.length-hmac prk (t ++ (info ++ (suc blocks ∷ []))) in
      let grown = length-append okm block in
      let short : ltb (length okm) size ≡ true = ground (arith) in
      elim (Bool-cases (ltb (suc blocks) 256)) [
        | inr last ↦ rw (short, last) refl
        | inl is_byte ↦
            let more = ltb→lt (suc blocks) 256 is_byte in
            rw (short, is_byte)
              (hkdf_loop_fails fuel prk info block (okm ++ block) (suc blocks) size d
                (omega (arith, wide, grown)) (omega (arith, more)) big (omega (arith, wide, grown)))
      ]

  -- Where digests have 32 bytes, `hkdf` returns exactly as many bytes as were asked for if these are
  -- 8160 at most, and raises ValueError if they are more.
  pub length-hkdf :
      (key_material : Bytes) (size : ℕ) (salt info : Bytes)
      → IsDigest p
      → (size ≤ 8160
          → (key : Bytes) × (hkdf key_material size salt info ≡ ok key) × (length key ≡ size))
        × (8160 < size
            → hkdf key_material size salt info ≡ err (value_error "bytes must be in range(0, 256)"))
  unfolding hkdf
  length-hkdf key_material size salt info d =
      let salt' = if length salt == 0 then replicate 32 0 else salt in
      let prk = p.hmac_sha256 salt' key_material in
      (
        λ small.
            let (b, made, reach) =
              hkdf_loop_reaches size prk info [] [] 0 size d refl small (omega arith) in
            (take size b, rw made refl, omega (arith, length-take size b)),
        λ big.
            rw (hkdf_loop_fails size prk info [] [] 0 size d refl (omega arith) big (omega arith))
              refl,
      )

-- ===== src/Noise/State.antt =====
-- The state of wassupweb/utils/noise_handler.py: `generate_iv`, `TransportState` and the keys of
-- `NoiseHandler` before and after the handshake.
use wassupweb.Prelude.{
  ℕ, ◌+◌, ◌/◌, ◌%◌, ◌≡◌, sym, ap, ◌∙◌, Bool, false, Option, none, some, [], ◌∷◌, ◌++◌, arith, ◌==◌,
  if◌then◌else◌, Bytes, length, take, drop, replicate, Result, ok, err,
}
use wassupweb.Crypto.{Primitives, IsDigest}
use wassupweb.Crypto.Wrappers.{hkdf, length-hkdf}

-- Four zero bytes and four more, then the counter in four bytes, the highest first.
unfoldable pub generate_iv : ℕ → Bytes
generate_iv counter =
    replicate 8 0
    ++ ((counter / 16777216 % 256)
        ∷ (counter / 65536 % 256)
        ∷ (counter / 256 % 256)
        ∷ (counter % 256)
        ∷ [])

pub record TransportState : Type 0 where
  pub enc_key : Bytes
  pub dec_key : Bytes
  pub read_counter : ℕ
  pub write_counter : ℕ

pub record NoiseHandler : Type 0 where
  pub private_key : Bytes
  pub public_key : Bytes
  pub noise_header : Bytes
  pub hash : Bytes
  pub salt : Bytes
  pub enc_key : Bytes
  pub dec_key : Bytes
  pub counter : ℕ
  pub sent_intro : Bool
  pub in_bytes : Bytes
  pub transport : Option TransportState
  pub waiting : Bool
  pub pending : Bool
  pub strict : Bool
  pub intro_header : Bytes

-- Three bytes, the highest first.
abbrev pub size_bytes : ℕ → Bytes
size_bytes n = (n / 65536 % 256) ∷ (n / 256 % 256) ∷ (n % 256) ∷ []

-- `if routing_info` is false for `None` and for no bytes.
unfoldable pub intro : Bytes → Bytes → Bytes
intro [] header = header
intro (b ∷ routing) header =
    (b'E' ∷ b'D' ∷ 0 ∷ 1 ∷ size_bytes (length (b ∷ routing))) ++ ((b ∷ routing) ++ header)

-- What a call returned that does not raise.
abbrev derived : Result Bytes → Bytes
derived (ok key) = key
derived (err e) = []

module _ (p : Primitives) where
  unfoldable pub transport_encrypt : Bytes → TransportState → Bytes × TransportState
  transport_encrypt plaintext t = (
    p.gcm_encrypt t.enc_key (generate_iv t.write_counter) [] plaintext,
    record t { write_counter = t.write_counter + 1 },
  )

  -- The counter has moved on when the library refuses the text, and then the call raises.
  unfoldable pub transport_decrypt : Bytes → TransportState → Result Bytes × TransportState
  transport_decrypt ciphertext t = (
    p.gcm_decrypt t.dec_key (generate_iv t.read_counter) [] ciphertext,
    record t { read_counter = t.read_counter + 1 },
  )

  unfoldable pub authenticate : Bytes → NoiseHandler → NoiseHandler
  authenticate bytes h = elim h.transport [
    | none ↦ record h { hash = p.sha256 (h.hash ++ bytes) }
    | some t ↦ h
  ]

  -- The 64 bytes that the handler asks for are two blocks, which `hkdf` always returns.
  unfoldable pub local_hkdf : Bytes → NoiseHandler → Bytes × Bytes
  local_hkdf bytes h = let key = derived (hkdf p bytes 64 h.salt []) in (take 32 key, drop 32 key)

  unfoldable pub mix_into_key : Bytes → NoiseHandler → NoiseHandler
  mix_into_key bytes h =
      let (write_key, read_key) = local_hkdf bytes h in
      record h { salt = write_key; enc_key = read_key; dec_key = read_key; counter = 0 }

  unfoldable pub encrypt : Bytes → NoiseHandler → Bytes × NoiseHandler
  encrypt plaintext h = elim h.transport [
    | some t ↦
        let (sealed, t') = transport_encrypt plaintext t in
        (sealed, record h { transport = some t' })
    | none ↦
        let sealed = p.gcm_encrypt h.enc_key (generate_iv h.counter) h.hash plaintext in
        (sealed, authenticate sealed (record h { counter = h.counter + 1 }))
  ]

  unfoldable pub decrypt : Bytes → NoiseHandler → Result Bytes × NoiseHandler
  decrypt ciphertext h = elim h.transport [
    | some t ↦
        let (opened, t') = transport_decrypt ciphertext t in
        (opened, record h { transport = some t' })
    | none ↦
        let moved = record h { counter = h.counter + 1 } in
        elim (p.gcm_decrypt h.dec_key (generate_iv h.counter) h.hash ciphertext) [
          | ok plaintext ↦ (ok plaintext, authenticate ciphertext moved)
          | err e ↦ (err e, moved)
        ]
  ]

  -- The constructor, with `mode` for NOISE_MODE.
  unfoldable pub make_noise_handler : Bytes → Bytes → Bytes → Bytes → Bytes → Bool → NoiseHandler
  make_noise_handler mode private public header routing strict =
      let start = if length mode == 32 then mode else p.sha256 mode in
      authenticate public (
        authenticate header (record {
          private_key = private;
          public_key = public;
          noise_header = header;
          hash = start;
          salt = start;
          enc_key = start;
          dec_key = start;
          counter = 0;
          sent_intro = false;
          in_bytes = [];
          transport = none;
          waiting = false;
          pending = false;
          strict = strict;
          intro_header = intro routing header;
        }))

  hkdf_returns :
      (bytes salt : Bytes)
      → IsDigest p
      → hkdf p bytes 64 salt [] ≡ ok (derived (hkdf p bytes 64 salt []))
  hkdf_returns bytes salt d =
      let (key, made, size) = (length-hkdf p bytes 64 salt [] d).0 (omega arith) in
      made ∙ ap ok (sym (ap derived made))

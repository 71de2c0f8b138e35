-- ===== src/Noise/Agreement.antt =====
-- Two ends that hold the same keys and counters understand each other, and still hold the same
-- afterwards.
use wassupweb.Prelude.{
  ℕ, ◌+◌, ◌≡◌, refl, sym, ap, none, List, [], ◌∷◌, ◌++◌, Bytes, Result, ◌>>=◌, ok,
}
use wassupweb.Crypto.{Primitives, IsCipher}
use wassupweb.Noise.State.{
  NoiseHandler, TransportState, transport_encrypt, transport_decrypt, generate_iv, encrypt, decrypt,
  authenticate, mix_into_key, local_hkdf,
}

-- What `a` seals next, `b` opens next.
pub record Paired (a b : TransportState) : Type 0 where
  pub key : a.enc_key ≡ b.dec_key
  pub counter : a.write_counter ≡ b.read_counter

-- Two handlers in the same place of the handshake.
pub record Agree (a b : NoiseHandler) : Type 0 where
  pub hash : a.hash ≡ b.hash
  pub salt : a.salt ≡ b.salt
  pub key : a.enc_key ≡ b.dec_key
  pub counter : a.counter ≡ b.counter
  pub open_a : a.transport ≡ none
  pub open_b : b.transport ≡ none

module _ (p : Primitives) where
  unfoldable pub seal_all : List Bytes → TransportState → List Bytes
  unfolding transport_encrypt
  seal_all [] t = []
  seal_all (m ∷ ms) t = let (sealed, t') = transport_encrypt p m t in sealed ∷ seal_all ms t'

  unfoldable pub open_all : List Bytes → TransportState → Result (List Bytes)
  unfolding transport_decrypt
  open_all [] t = ok []
  open_all (c ∷ cs) t =
      let (opened, t') = transport_decrypt p c t in do m ← opened; ms ← open_all cs t'; ok (m ∷ ms)

  -- Where a sealed text opens under its key: every message of a run comes back, in the order in which they were sealed, where the sender's key
  -- and counter are the receiver's at the start.
  pub open_all-seal_all :
      (ms : List Bytes) (a b : TransportState)
      → IsCipher p
      → Paired a b
      → open_all (seal_all ms a) b ≡ ok ms
  unfolding seal_all open_all transport_encrypt transport_decrypt
  open_all-seal_all [] a b c h = refl
  open_all-seal_all (m ∷ ms) a b c h =
      let rest =
        open_all-seal_all ms (transport_encrypt p m a).1
          (record {
            enc_key = b.enc_key;
            dec_key = a.enc_key;
            read_counter = a.write_counter + 1;
            write_counter = b.write_counter;
          })
          c (record { key = refl; counter = refl }) in
      rw (sym h.key, sym h.counter, c.gcm_open a.enc_key (generate_iv a.write_counter) [] m, rest)

  encrypt_open :
      (m : Bytes) (h : NoiseHandler)
      → h.transport ≡ none
      → encrypt p m h ≡ (
        p.gcm_encrypt h.enc_key (generate_iv h.counter) h.hash m,
        record h {
          counter = h.counter + 1;
          hash = p.sha256 (h.hash ++ p.gcm_encrypt h.enc_key (generate_iv h.counter) h.hash m);
        },
      )
  unfolding encrypt authenticate
  encrypt_open m h e = rw e refl

  decrypt_open :
      (c m : Bytes) (h : NoiseHandler)
      → h.transport ≡ none
      → p.gcm_decrypt h.dec_key (generate_iv h.counter) h.hash c ≡ ok m
      → decrypt p c h ≡ (ok m, record h { counter = h.counter + 1; hash = p.sha256 (h.hash ++ c) })
  unfolding decrypt authenticate
  decrypt_open c m h e opened =
      rw (e, decrypt, opened, authenticate, e)
        (ap
          (λ t. (
            ok m,
            record h { counter = h.counter + 1; hash = p.sha256 (h.hash ++ c); transport = t },
          ))
          e)

  -- During the handshake, where a sealed text opens under its key: what one handler encrypts, a handler in the same place decrypts to the
  -- same text, and both are in the same place again, with the sealed text in their hash.
  pub decrypt-encrypt-Agree :
      (plaintext : Bytes) (a b : NoiseHandler)
      → IsCipher p
      → Agree a b
      → ((decrypt p (encrypt p plaintext a).0 b).0 ≡ ok plaintext)
        × Agree (encrypt p plaintext a).1 (decrypt p (encrypt p plaintext a).0 b).1
  decrypt-encrypt-Agree plaintext a b c h =
      let sealed = p.gcm_encrypt a.enc_key (generate_iv a.counter) a.hash plaintext in
      let sent = encrypt_open plaintext a h.open_a in
      let opened : p.gcm_decrypt b.dec_key (generate_iv b.counter) b.hash sealed ≡ ok plaintext =
        rw (sym h.key, sym h.counter, sym h.hash)
          (c.gcm_open a.enc_key (generate_iv a.counter) a.hash plaintext) in
      let got = decrypt_open sealed plaintext b h.open_b opened in
      rw (sent, got)
        (
          refl,
          record {
            hash = ap (λ x. p.sha256 (x ++ sealed)) h.hash;
            salt = h.salt;
            key = h.key;
            counter = ap (λ (x : ℕ). x + 1) h.counter;
            open_a = h.open_a;
            open_b = h.open_b;
          },
        )

  -- Both stay in the same place when they mix in the same secret.
  pub mix_into_key-Agree :
      (secret : Bytes) (a b : NoiseHandler)
      → Agree a b
      → Agree (mix_into_key p secret a) (mix_into_key p secret b)
  unfolding mix_into_key local_hkdf
  mix_into_key-Agree secret a b h = record {
    hash = h.hash;
    salt = rw h.salt refl;
    key = rw h.salt refl;
    counter = refl;
    open_a = h.open_a;
    open_b = h.open_b;
  }

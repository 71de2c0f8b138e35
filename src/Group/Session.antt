-- ===== src/Group/Session.antt =====
-- Sender and receiver together: what `encrypt` seals `decrypt` opens.
use mathlib.Core.Path.{subst}
use wassupweb.Prelude.{
  ℕ, ◌+◌, ◌≤◌, ◌≡◌, sym, ap, ◌∙◌, none, some, ◌∷◌, arith, ◌==◌, if◌then◌else◌, Bytes, length, take,
  >>=-eq-ok, ok-injective, ok,
}
use wassupweb.Crypto.{Primitives, IsCipher, IsSignature, KeysMatch}
use wassupweb.Group.Ratchet.Keys.{get_sender_key-SameIdentity}
use wassupweb.Group.Keys.{SenderMessageKey, SenderChainKey}
use wassupweb.Group.State.{SenderKeyState, get_signing_key_public}
use wassupweb.Group.Record.{SenderKeyRecord, get_sender_key_state, put_sender_key_state}
use wassupweb.Group.Message.{SenderKeyMessage, make_message, parse_message, verify_signature}
use wassupweb.Group.Message.RoundTrip.{parse-make_message, verify-make_message}
use wassupweb.Group.Cipher.{get_sender_key, encrypt_with, encrypt, decrypt_with, decrypt}
use wassupweb.Group.Ratchet.{IsSound, iteration-message_key_at}
use wassupweb.Group.Ratchet.Answers.{get_sender_key-IsAnswer}

-- The iteration that `encrypt` asks for.
abbrev pub next_iteration : SenderKeyState → ℕ
next_iteration s = if s.chain.iteration == 0 then 0 else s.chain.iteration + 1

module _ (p : Primitives) where
  -- What a successful `encrypt` did: the key of the next iteration sealed the text, and the message
  -- was built from the ciphertext.
  pub record Encrypted (s : SenderKeyState) (r : SenderKeyRecord) (text bytes : Bytes)
      (r' : SenderKeyRecord) : Type 0 where
    pub key : SenderMessageKey
    pub after : SenderKeyState
    pub ciphertext : Bytes
    pub message : SenderKeyMessage
    pub took : get_sender_key p s (next_iteration s) ≡ ok (key, after)
    pub sealed : p.cbc_encrypt key.cipher_key key.iv text ≡ ok ciphertext
    pub made : make_message p after.key_id key.iteration ciphertext after.private ≡ ok message
    pub sent : bytes ≡ message.serialized
    pub stored : r' ≡ put_sender_key_state none after r

  pub encrypt-Encrypted :
      (s : SenderKeyState) (r : SenderKeyRecord) (text bytes : Bytes) (r' : SenderKeyRecord)
      → get_sender_key_state none r ≡ some s
      → encrypt p (some r) text ≡ ok (bytes, r')
      → Encrypted s r text bytes r'
  unfolding encrypt encrypt_with
  encrypt-Encrypted s r text bytes r' here e =
      let e' : encrypt_with p r text (some s) ≡ ok (bytes, r') =
        ap (encrypt_with p r text) (sym here) ∙ e in
      let ((key, after), took, r1) = >>=-eq-ok (get_sender_key p s (next_iteration s)) _ e' in
      let (ciphertext, sealed, r2) = >>=-eq-ok (p.cbc_encrypt key.cipher_key key.iv text) _ r1 in
      let (message, made, r3) =
        >>=-eq-ok (make_message p after.key_id key.iteration ciphertext after.private) _ r2 in
      record {
        key = key;
        after = after;
        ciphertext = ciphertext;
        message = message;
        took = took;
        sealed = sealed;
        made = made;
        sent = sym (ap (λ t. t.0) (ok-injective r3));
        stored = sym (ap (λ t. t.1) (ok-injective r3));
      }

  decrypt_step :
      (r : SenderKeyRecord) (bytes : Bytes) (m : SenderKeyMessage) (t t' : SenderKeyState)
      (key : SenderMessageKey) (text : Bytes)
      → parse_message bytes ≡ ok m
      → get_sender_key_state (some m.key_id) r ≡ some t
      → verify_signature p m t ≡ ok tt
      → get_sender_key p t m.iteration ≡ ok (key, t')
      → p.cbc_decrypt key.cipher_key key.iv m.ciphertext ≡ ok text
      → decrypt p (some r) bytes ≡ ok (text, put_sender_key_state (some m.key_id) t' r)
  unfolding decrypt decrypt_with
  decrypt_step r bytes m t t' key text e1 e2 e3 e4 e5 = rw (e1, decrypt) (rw e2 (rw (e3, e4, e5)))

  -- A sealed text opens under its key, and signatures have 64 bytes. Sender and receiver follow the
  -- chain of the same `root`, and the receiver holds the public key of
  -- the sender's signing key. If the receiver's state of the sender's key id answers a request for
  -- the iteration that the sender uses next, whatever arrived before, then `decrypt` opens what
  -- `encrypt` sealed: it returns the same text and stores the state that the request left.
  pub decrypt-encrypt :
      (root : SenderChainKey) (s t t' : SenderKeyState) (r r' q : SenderKeyRecord)
      (key : SenderMessageKey) (public text bytes : Bytes)
      → IsCipher p
      → IsSignature p
      → KeysMatch p (take 32 s.private) public
      → length public ≡ 32
      → get_signing_key_public t ≡ 5 ∷ public
      → IsSound p root s.chain s.message_keys
      → IsSound p root t.chain t.message_keys
      → get_sender_key_state none r ≡ some s
      → get_sender_key_state (some s.key_id) q ≡ some t
      → encrypt p (some r) text ≡ ok (bytes, r')
      → get_sender_key p t (next_iteration s) ≡ ok (key, t')
      → decrypt p (some q) bytes ≡ ok (text, put_sender_key_state (some s.key_id) t' q)
  decrypt-encrypt root s t t' r r' q key public text bytes cipher sig match size own hs ht here
        there e f =
      let d = encrypt-Encrypted s r text bytes r' here e in
      let a = get_sender_key-IsAnswer p root s (next_iteration s) d.key d.after hs d.took in
      let b = get_sender_key-IsAnswer p root t (next_iteration s) key t' ht f in
      let (same_id, same_private, _) = get_sender_key-SameIdentity p s _ d.key d.after d.took in
      let same_key : d.key ≡ key = a.right ∙ sym b.right in
      let made : make_message p s.key_id d.key.iteration d.ciphertext s.private ≡ ok d.message =
        rw (same_id, same_private) at d.made in
      let (parsed, id, iteration, ciphertext) =
        parse-make_message p s.key_id d.key.iteration d.ciphertext s.private d.message sig made in
      let at_next : d.message.iteration ≡ next_iteration s =
        iteration
        ∙ ap (λ (k : SenderMessageKey). k.iteration) a.right
        ∙ iteration-message_key_at p root (next_iteration s) (later hs.after) in
      subst (λ (id : ℕ). decrypt p (some q) bytes ≡ ok (text, put_sender_key_state (some id) t' q))
        id
        (decrypt_step q bytes d.message t t' key text (rw d.sent parsed)
          (ap (λ (k : ℕ). get_sender_key_state (some k) q) id ∙ there)
          (verify-make_message p s.key_id d.key.iteration d.ciphertext s.private d.message t public
            sig match size own made)
          (ap (get_sender_key p t) at_next ∙ f)
          (rw (← same_key, ciphertext) (cipher.cbc_open _ _ text d.ciphertext d.sealed)))
    where
      later : root.iteration ≤ s.chain.iteration → root.iteration ≤ next_iteration s
      later h = ground arith

-- ===== src/Group/Cipher.antt =====
-- wassupweb/signal/group/group_cipher.py. An exception leaves the store as it was, since the record
-- that a call changes is written back only at its end.
use wassupweb.Prelude.{
  ℕ, zero, suc, ◌+◌, ◌-◌, Option, none, some, ltb, ◌==◌, if◌then◌else◌, Bytes, Result, ◌>>=◌, ◌>>◌,
  ok, err, runtime_error,
}
use wassupweb.Crypto.{Primitives}
use wassupweb.Group.Keys.{SenderMessageKey, SenderChainKey, get_sender_message_key, get_next}
use wassupweb.Group.State.{
  SenderKeyState, set_sender_chain_key, has_sender_message_key, add_sender_message_key,
  remove_sender_message_key,
}
use wassupweb.Group.Record.{SenderKeyRecord, get_sender_key_state, put_sender_key_state}
use wassupweb.Group.Message.{SenderKeyMessage, make_message, parse_message, verify_signature}

abbrev pub max_future : ℕ
max_future = 2000

module _ (p : Primitives) where
  -- `while sender_chain_key.get_iteration() < iteration`, on fuel.
  unfoldable pub catch_up :
      ℕ → ℕ → SenderKeyState → SenderChainKey → SenderKeyState × SenderChainKey
  catch_up zero iteration s c = (s, c)
  catch_up (suc fuel) iteration s c =
      let rest =
        catch_up fuel iteration (add_sender_message_key (get_sender_message_key p c) s)
          (get_next p c) in
      if ltb c.iteration iteration then rest else (s, c)

  -- Each round steps the chain by one, so the distance is fuel enough.
  unfoldable pub get_sender_key : SenderKeyState → ℕ → Result (SenderMessageKey × SenderKeyState)
  get_sender_key s iteration =
      let c = s.chain in
      if ltb iteration c.iteration
      then (if has_sender_message_key iteration s
          then elim (remove_sender_message_key p iteration s) [
            | none ↦ err (runtime_error "No sender message key found for iteration")
            | some (key, left) ↦ ok (key, left)
          ]
          else err (runtime_error "Received message with old counter"))
      else if ltb max_future (iteration - c.iteration)
      then err (runtime_error "Over 2000 messages into the future")
      else let (s', c') = catch_up (iteration - c.iteration) iteration s c in
        ok (get_sender_message_key p c', set_sender_chain_key (get_next p c') s')

  -- `encrypt` on the state that the record gives for `None`.
  unfoldable pub encrypt_with :
      SenderKeyRecord → Bytes → Option SenderKeyState → Result (Bytes × SenderKeyRecord)
  encrypt_with r text none = err (runtime_error "No session to encrypt message")
  encrypt_with r text (some s) = do
    let i = s.chain.iteration
    (key, s') ← get_sender_key s (if i == 0 then 0 else i + 1)
    ciphertext ← p.cbc_encrypt key.cipher_key key.iv text
    message ← make_message p s'.key_id key.iteration ciphertext s'.private
    ok (message.serialized, put_sender_key_state none s' r)

  -- The serialized message and the record to store.
  unfoldable pub encrypt : Option SenderKeyRecord → Bytes → Result (Bytes × SenderKeyRecord)
  encrypt none text = err (runtime_error "No SenderKeyRecord found for encryption")
  encrypt (some r) text = encrypt_with r text (get_sender_key_state none r)

  -- `decrypt` on the state that the record gives for the message's key id.
  unfoldable pub decrypt_with :
      SenderKeyRecord → SenderKeyMessage → Option SenderKeyState → Result (Bytes × SenderKeyRecord)
  decrypt_with r message none = err (runtime_error "No session found to decrypt message")
  decrypt_with r message (some s) = do
    verify_signature p message s
    (key, s') ← get_sender_key s message.iteration
    text ← p.cbc_decrypt key.cipher_key key.iv message.ciphertext
    ok (text, put_sender_key_state (some message.key_id) s' r)

  unfoldable pub decrypt : Option SenderKeyRecord → Bytes → Result (Bytes × SenderKeyRecord)
  decrypt none bytes = err (runtime_error "No SenderKeyRecord found for decryption")
  decrypt (some r) bytes = do
    message ← parse_message bytes
    decrypt_with r message (get_sender_key_state (some message.key_id) r)

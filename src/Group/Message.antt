-- ===== src/Group/Message.antt =====
-- wassupweb/signal/group/sender_key_message.py: an encrypted group message on the wire.
pub mod RoundTrip
use wassupweb.Prelude.{
  ℕ, ◌+◌, ◌-◌, ◌/◌, ◌&&◌, [], ◌∷◌, ◌++◌, ltb, ◌==◌, if◌then◌else◌, Bytes, length, take, drop,
  Result, ◌>>=◌, ok, err, value_error,
}
use wassupweb.Bytes.{pack_u32, unpack_u32}
use wassupweb.Crypto.{Primitives}
use wassupweb.Crypto.Wrappers.{curve_sign, curve_verify}
use wassupweb.Group.State.{SenderKeyState, get_signing_key_public}

pub record SenderKeyMessage : Type 0 where
  pub serialized : Bytes
  pub message_version : ℕ
  pub key_id : ℕ
  pub iteration : ℕ
  pub ciphertext : Bytes
  pub signature : Bytes

abbrev pub signature_length : ℕ
signature_length = 64

-- `b[:-64]` and `b[-64:]`; from 64 bytes or less the first is empty and the second is everything.
unfoldable pub but_signature : Bytes → Bytes
but_signature bytes = take (length bytes - signature_length) bytes

unfoldable pub signature_of : Bytes → Bytes
signature_of bytes = drop (length bytes - signature_length) bytes

-- `_from_serialized`; the version is the upper half of the first byte.
unfoldable pub parse_message : Bytes → Result SenderKeyMessage
parse_message [] = err (value_error "invalid SenderKeyMessage payload")
parse_message (version ∷ rest) =
    if ltb (length (version ∷ rest)) (1 + 4 + 4 + 4 + signature_length)
    then err (value_error "invalid SenderKeyMessage payload")
    else do
      let body = but_signature (version ∷ rest)
      key_id ← unpack_u32 body 1
      iteration ← unpack_u32 body 5
      cipher_len ← unpack_u32 body 9
      ok (record {
        serialized = version ∷ rest;
        message_version = version / 16;
        key_id = key_id;
        iteration = iteration;
        ciphertext = take cipher_len (drop 13 body);
        signature = signature_of (version ∷ rest);
      })

module _ (p : Primitives) where
  -- `_get_signature`: the key is cut to 32 bytes here and once more in `Curve.sign`.
  unfoldable pub get_signature : Bytes → Bytes → Result Bytes
  get_signature signature_key serialized = curve_sign p (take 32 signature_key) serialized

  -- The constructor from parts; the version byte is (3 << 4) | 3.
  unfoldable pub make_message : ℕ → ℕ → Bytes → Bytes → Result SenderKeyMessage
  make_message key_id iteration ciphertext signature_key = do
    id_bytes ← pack_u32 key_id
    iteration_bytes ← pack_u32 iteration
    length_bytes ← pack_u32 (length ciphertext)
    let body = 0x33 ∷ (id_bytes ++ (iteration_bytes ++ (length_bytes ++ ciphertext)))
    signature ← get_signature signature_key body
    ok (record {
      serialized = body ++ signature;
      message_version = 3;
      key_id = key_id;
      iteration = iteration;
      ciphertext = ciphertext;
      signature = signature;
    })

  -- `verify_signature(state.get_signing_key_public())`; a leading version byte 5 is dropped.
  unfoldable pub verify_key : SenderKeyMessage → Bytes → Result (Unit {0})
  verify_key m [] =
      if curve_verify p [] (but_signature m.serialized) (signature_of m.serialized)
      then ok tt
      else err (value_error "Invalid signature")
  verify_key m (b ∷ rest) =
      let key = if length (b ∷ rest) == 33 && b == 5 then rest else b ∷ rest in
      if curve_verify p key (but_signature m.serialized) (signature_of m.serialized)
      then ok tt
      else err (value_error "Invalid signature")

  unfoldable pub verify_signature : SenderKeyMessage → SenderKeyState → Result (Unit {0})
  unfolding verify_key
  verify_signature m s = verify_key m (get_signing_key_public s)

-- ===== src/Group/State.antt =====
-- wassupweb/signal/group/sender_key_state.py: the chain of one sender, its signing key and the keys
-- of messages that were skipped.
use wassupweb.Prelude.{
  ℕ, Bool, false, ◌||◌, Option, none, some, List, [], ◌∷◌, ◌++◌, ltb, ◌==◌, if◌then◌else◌, Bytes,
  length, drop,
}
use wassupweb.Crypto.{Primitives}
use wassupweb.Group.Keys.{SenderMessageKey, SenderChainKey, sender_message_key}

-- An entry of `senderMessageKeys`.
pub record StoredKey : Type 0 where
  pub iteration : ℕ
  pub seed : Bytes

pub record SenderKeyState : Type 0 where
  pub key_id : ℕ
  pub chain : SenderChainKey
  pub public : Bytes
  pub private : Bytes
  pub message_keys : List StoredKey

abbrev pub max_message_keys : ℕ
max_message_keys = 2000

-- The constructor without a structure; a key pair stands before the single keys.
unfoldable pub make_state : ℕ → ℕ → Bytes → Bytes → Bytes → SenderKeyState
make_state key_id iteration chain_key public private = record {
  key_id = key_id;
  chain = record { iteration = iteration; chain_key = chain_key };
  public = public;
  private = private;
  message_keys = [];
}

unfoldable pub get_signing_key_public : SenderKeyState → Bytes
get_signing_key_public s = if length s.public == 32 then 5 ∷ s.public else s.public

unfoldable pub set_sender_chain_key : SenderChainKey → SenderKeyState → SenderKeyState
set_sender_chain_key c s = record s { chain = c }

unfoldable pub has_key : ℕ → List StoredKey → Bool
has_key i [] = false
has_key i (k ∷ ks) = k.iteration == i || has_key i ks

unfoldable pub has_sender_message_key : ℕ → SenderKeyState → Bool
has_sender_message_key i s = has_key i s.message_keys

-- `keys.append(...)`, then `keys.pop(0)` if there are too many.
unfoldable pub push_key : StoredKey → List StoredKey → List StoredKey
push_key k ks =
    let keys = ks ++ k ∷ [] in if ltb max_message_keys (length keys) then drop 1 keys else keys

unfoldable pub add_sender_message_key : SenderMessageKey → SenderKeyState → SenderKeyState
add_sender_message_key m s = record s {
  message_keys = push_key (record { iteration = m.iteration; seed = m.seed }) s.message_keys;
}

-- The loop of `remove_sender_message_key`: the first entry of that iteration and what is left.
unfoldable pub pop_key : ℕ → List StoredKey → Option (StoredKey × List StoredKey)
pop_key i [] = none
pop_key i (k ∷ ks) =
    let rest = pop_key i ks in
    if k.iteration == i
    then some (k, ks)
    else elim rest [ none ↦ none | some (found, left) ↦ some (found, k ∷ left) ]

module _ (p : Primitives) where
  unfoldable pub remove_sender_message_key :
      ℕ → SenderKeyState → Option (SenderMessageKey × SenderKeyState)
  remove_sender_message_key i s = elim (pop_key i s.message_keys) [
    | none ↦ none
    | some (k, left) ↦
        some (sender_message_key p k.iteration k.seed, record s { message_keys = left })
  ]

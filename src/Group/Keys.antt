-- ===== src/Group/Keys.antt =====
-- wassupweb/signal/group/sender_message_key.py and sender_chain_key.py.
use wassupweb.Prelude.{
  ℕ, zero, suc, ◌+◌, ◌≡◌, refl, [], ◌∷◌, ◌++◌, arith, Bytes, take, drop, replicate,
}
use wassupweb.Crypto.{Primitives}

pub record SenderMessageKey : Type 0 where
  pub iteration : ℕ
  pub iv : Bytes
  pub cipher_key : Bytes
  pub seed : Bytes

pub record SenderChainKey : Type 0 where
  pub iteration : ℕ
  pub chain_key : Bytes

-- "WhisperGroup"
abbrev pub whisper_group : Bytes
whisper_group =
    0x57 ∷ 0x68 ∷ 0x69 ∷ 0x73 ∷ 0x70 ∷ 0x65 ∷ 0x72 ∷ 0x47 ∷ 0x72 ∷ 0x6f ∷ 0x75 ∷ 0x70 ∷ []

module _ (p : Primitives) where
  unfoldable pub derive_secrets : Bytes → Bytes → Bytes → Bytes × Bytes
  derive_secrets seed salt info =
      let material = p.hkdf_derive seed salt info in (take 32 material, drop 32 material)

  unfoldable pub sender_message_key : ℕ → Bytes → SenderMessageKey
  unfolding derive_secrets
  sender_message_key iteration seed =
      let (first, second) = derive_secrets seed (replicate 32 0) whisper_group in
      record {
        iteration = iteration;
        iv = take 16 first;
        cipher_key = take 16 (drop 16 first) ++ take 16 second;
        seed = seed;
      }

  unfoldable pub get_sender_message_key : SenderChainKey → SenderMessageKey
  get_sender_message_key c = sender_message_key c.iteration (p.hmac_sha256 c.chain_key (0x01 ∷ []))

  unfoldable pub get_next : SenderChainKey → SenderChainKey
  get_next c = record {
    iteration = c.iteration + 1;
    chain_key = p.hmac_sha256 c.chain_key (0x02 ∷ []);
  }

  -- The chain key after `n` steps: what sender and receiver agree on.
  unfoldable pub chain_after : ℕ → SenderChainKey → SenderChainKey
  chain_after zero c = c
  chain_after (suc n) c = chain_after n (get_next c)

  pub iteration-get_next : (c : SenderChainKey) → (get_next c).iteration ≡ c.iteration + 1
  unfolding get_next
  iteration-get_next c = refl

  pub iteration-message_key :
      (c : SenderChainKey) → (get_sender_message_key c).iteration ≡ c.iteration
  unfolding get_sender_message_key sender_message_key
  iteration-message_key c = refl

  -- A stored seed gives back the key that it was taken from.
  pub message_key_of_seed :
      (c : SenderChainKey)
      → sender_message_key (get_sender_message_key c).iteration (get_sender_message_key c).seed
        ≡ get_sender_message_key c
  unfolding get_sender_message_key sender_message_key
  message_key_of_seed c = refl

  pub iteration-chain_after :
      (n : ℕ) (c : SenderChainKey) → (chain_after n c).iteration ≡ c.iteration + n
  unfolding chain_after
  iteration-chain_after zero c = omega arith
  iteration-chain_after (suc n) c =
      omega (arith, iteration-chain_after n (get_next c), iteration-get_next c)

  pub chain_after-next :
      (n : ℕ) (c : SenderChainKey) → get_next (chain_after n c) ≡ chain_after (suc n) c
  unfolding chain_after
  chain_after-next zero c = refl
  chain_after-next (suc n) c = chain_after-next n (get_next c)

-- ===== src/Group/Ratchet/Keys.antt =====
-- `get_sender_key`: which requests are answered, with which key, and that no key is given twice.
use mathlib.Core.Path.{subst}
use wassupweb.Prelude.{
  ℕ, ◌+◌, ◌-◌, ◌≤◌, ◌<◌, ◌≡◌, refl, sym, ◌∙◌, inl, inr, true, false, some, List, arith, ltb, ltb→lt,
  lt→ltb, le→ltb, Bool-cases, Result, ok-injective, ok, err, runtime_error,
}
use wassupweb.Crypto.{Primitives}
use wassupweb.Group.Keys.{
  SenderMessageKey, SenderChainKey, sender_message_key, get_sender_message_key, get_next,
}
use wassupweb.Group.State.{
  StoredKey, SenderKeyState, has_key, has_sender_message_key, pop_key, remove_sender_message_key,
  set_sender_chain_key,
}
use wassupweb.Group.Ratchet.CatchUp.{catch_up-fields}
use wassupweb.Group.Cipher.{catch_up, get_sender_key, max_future}
use wassupweb.Group.Ratchet.Stored.{pop_key-some}

module _ (p : Primitives) where
  -- `get_sender_key` on an old iteration, and on one that is not old.
  abbrev pub Old : SenderKeyState → ℕ → Type 0
  Old s i = i < s.chain.iteration

  pub passed_stored :
      (s : SenderKeyState) (i : ℕ)
      → Old s i
      → has_key i s.message_keys ≡ true
      → (k : StoredKey) × (left : List StoredKey) × (pop_key i s.message_keys ≡ some (k, left))
        × (get_sender_key p s i
            ≡ ok (sender_message_key p k.iteration k.seed, record s { message_keys = left }))
  unfolding get_sender_key has_sender_message_key remove_sender_message_key
  passed_stored s i old has =
      let (r, e) = pop_key-some i s.message_keys has in
      (r.0, r.1, e, rw (lt→ltb i s.chain.iteration old, has, e))

  pub passed_refused :
      (s : SenderKeyState) (i : ℕ)
      → Old s i
      → has_key i s.message_keys ≡ false
      → get_sender_key p s i ≡ err (runtime_error "Received message with old counter")
  unfolding get_sender_key has_sender_message_key
  passed_refused s i old has = rw (lt→ltb i s.chain.iteration old, has)

  pub far_refused :
      (s : SenderKeyState) (i : ℕ)
      → s.chain.iteration + max_future < i
      → get_sender_key p s i ≡ err (runtime_error "Over 2000 messages into the future")
  unfolding get_sender_key
  far_refused s i far = rw (
    le→ltb i s.chain.iteration (omega arith),
    lt→ltb max_future (i - s.chain.iteration) (omega arith),
  )

  abbrev pub caught_up : SenderKeyState → ℕ → SenderKeyState × SenderChainKey
  caught_up s i = catch_up p (i - s.chain.iteration) i s s.chain

  pub near_answer :
      (s : SenderKeyState) (i : ℕ)
      → s.chain.iteration ≤ i
      → i ≤ s.chain.iteration + max_future
      → get_sender_key p s i
        ≡ ok (
          get_sender_message_key p (caught_up s i).1,
          record (caught_up s i).0 { chain = get_next p (caught_up s i).1 },
        )
  unfolding get_sender_key set_sender_chain_key
  near_answer s i lo hi =
      rw (le→ltb i s.chain.iteration lo, le→ltb max_future (i - s.chain.iteration) (omega arith))

  -- The identity of a state: its key id and its signing keys.
  abbrev pub SameIdentity : SenderKeyState → SenderKeyState → Type 0
  SameIdentity s t = (t.key_id ≡ s.key_id) × (t.private ≡ s.private) × (t.public ≡ s.public)

  same_identity :
      (s : SenderKeyState) {key k : SenderMessageKey} {s' t : SenderKeyState}
      {r : Result (SenderMessageKey × SenderKeyState)}
      → r ≡ ok (key, s')
      → r ≡ ok (k, t)
      → SameIdentity s t
      → SameIdentity s s'
  same_identity s e f h =
      subst (λ (a : SenderMessageKey × SenderKeyState). SameIdentity s a.1)
        (ok-injective (sym f ∙ e)) h

  -- A request changes the chain and the skipped keys only.
  pub get_sender_key-SameIdentity :
      (s : SenderKeyState) (i : ℕ) (key : SenderMessageKey) (s' : SenderKeyState)
      → get_sender_key p s i ≡ ok (key, s')
      → SameIdentity s s'
  get_sender_key-SameIdentity s i key s' e = elim (Bool-cases (ltb i s.chain.iteration)) [
    | inl old ↦ elim (Bool-cases (has_key i s.message_keys)) [
      | inl has ↦
          let (k, left, pop, f) = passed_stored s i (ltb→lt _ _ old) has in
          same_identity s e f (refl, refl, refl)
      | inr lacks ↦ absurd (cc (passed_refused s i (ltb→lt _ _ old) lacks))
    ]
    | inr new ↦ elim (Bool-cases (ltb (s.chain.iteration + max_future) i)) [
      | inl far ↦ absurd (cc (far_refused s i (ltb→lt _ _ far)))
      | inr near ↦
          same_identity s e (near_answer s i (ground arith) (ground arith))
            (catch_up-fields p s.chain (i - s.chain.iteration) i s s.chain)
    ]
  ]

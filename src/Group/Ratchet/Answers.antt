-- ===== src/Group/Ratchet/Answers.antt =====
-- The ratchet's answers: the right key, and each key once.
use mathlib.Core.Path.{subst}
use wassupweb.Prelude.{
  ℕ, ◌+◌, ◌-◌, ◌≤◌, ◌<◌, ◌≡◌, sym, ap, ◌∙◌, inl, inr, false, List, [], ◌∷◌, arith, ltb, ltb→lt,
  Bool-cases, All, Result, ok-injective, ok, err, runtime_error,
}
use wassupweb.Crypto.{Primitives}
use wassupweb.Group.Keys.{
  SenderMessageKey, SenderChainKey, sender_message_key, get_sender_message_key, get_next,
  iteration-get_next,
}
use wassupweb.Group.State.{StoredKey, SenderKeyState, has_key}
use wassupweb.Group.Cipher.{get_sender_key, max_future}
use wassupweb.Group.Ratchet.Stored.{
  IsStored, message_key_at, Pop, pop_key-Pop, iteration-Pop, length-Pop, All-Pop, Distinct-Pop,
}
use wassupweb.Group.Ratchet.CatchUp.{
  IsSound, message_key-on_chain, next-on_chain, has_key-beyond, catch_up-IsSound, IsStored-later,
}
use wassupweb.Group.Ratchet.Keys.{
  passed_stored, passed_refused, far_refused, near_answer, caught_up,
}

module _ (p : Primitives) (root : SenderChainKey) where
  -- What holds of a key handed out for message `i` and of the state after it.
  pub record IsAnswer (i : ℕ) (key : SenderMessageKey) (s : SenderKeyState) : Type 0 where
    pub right : key ≡ message_key_at p root i
    pub sound : IsSound p root s.chain s.message_keys
    pub passed : i < s.chain.iteration
    pub gone : has_key i s.message_keys ≡ false

  old-IsAnswer :
      (s : SenderKeyState) (i : ℕ) (k : StoredKey) (left : List StoredKey)
      → IsSound p root s.chain s.message_keys
      → i < s.chain.iteration
      → Pop i s.message_keys k left
      → IsAnswer i (sender_message_key p k.iteration k.seed) (record s { message_keys = left })
  old-IsAnswer s i k left h old d =
      let (hk, hl) = All-Pop (IsStored p root s.chain.iteration) d h.stored in
      let (dl, gone) = Distinct-Pop d h.distinct in
      record {
        right = hk.derived ∙ ap (message_key_at p root) (iteration-Pop d);
        sound = record {
          after = h.after;
          on_chain = h.on_chain;
          stored = hl;
          distinct = dl;
          bounded = omega (arith, length-Pop d, h.bounded);
        };
        passed = old;
        gone = gone;
      }

  IsStored-All :
      (b b' : ℕ) (ks : List StoredKey)
      → b ≤ b'
      → All (IsStored p root b) ks
      → All (IsStored p root b') ks
  IsStored-All b b' [] le h = tt
  IsStored-All b b' (k ∷ ks) le (hk, hks) =
      (IsStored-later p root b' k le hk, IsStored-All b b' ks le hks)

  near-IsAnswer :
      (s : SenderKeyState) (i : ℕ)
      → IsSound p root s.chain s.message_keys
      → s.chain.iteration ≤ i
      → IsAnswer i
          (get_sender_message_key p (caught_up p s i).1)
          (record (caught_up p s i).0 { chain = get_next p (caught_up p s i).1 })
  near-IsAnswer s i h lo =
      let (g, e) = catch_up-IsSound p root (i - s.chain.iteration) i s s.chain h (omega arith) in
      let step = iteration-get_next p (caught_up p s i).1 in
      record {
        right = message_key-on_chain p root g ∙ ap (message_key_at p root) e;
        sound = record {
          after = omega (arith, step, g.after);
          on_chain = next-on_chain p root g;
          stored = IsStored-All _ _ (caught_up p s i).0.message_keys (omega (arith, step)) g.stored;
          distinct = g.distinct;
          bounded = g.bounded;
        };
        passed = omega (arith, step);
        gone = has_key-beyond p root _ i (caught_up p s i).0.message_keys g.stored (omega arith);
      }

  transfer :
      (i : ℕ) {key k : SenderMessageKey} {s t : SenderKeyState}
      {r : Result (SenderMessageKey × SenderKeyState)}
      → r ≡ ok (key, s)
      → r ≡ ok (k, t)
      → IsAnswer i k t
      → IsAnswer i key s
  transfer i {key} {k} {s} {t} e f h =
      subst (λ (a : SenderMessageKey × SenderKeyState). IsAnswer i a.0 a.1)
        (ok-injective (sym f ∙ e)) h

  -- Whatever the order in which messages arrive: a state that follows the chain of `root` answers a
  -- request for message `i` only with the key of `i` on that chain, and the state after it still
  -- follows the chain, has passed `i` and holds no key of `i`.
  pub get_sender_key-IsAnswer :
      (s : SenderKeyState) (i : ℕ) (key : SenderMessageKey) (s' : SenderKeyState)
      → IsSound p root s.chain s.message_keys
      → get_sender_key p s i ≡ ok (key, s')
      → IsAnswer i key s'
  get_sender_key-IsAnswer s i key s' h e = elim (Bool-cases (ltb i s.chain.iteration)) [
    | inl old ↦ elim (Bool-cases (has_key i s.message_keys)) [
      | inl has ↦
          let (k, left, pop, f) = passed_stored p s i (ltb→lt _ _ old) has in
          transfer i e f (old-IsAnswer s i k left h (ltb→lt _ _ old) (pop_key-Pop i _ k left pop))
      | inr lacks ↦ absurd (cc (passed_refused p s i (ltb→lt _ _ old) lacks))
    ]
    | inr new ↦ elim (Bool-cases (ltb (s.chain.iteration + max_future) i)) [
      | inl far ↦ absurd (cc (far_refused p s i (ltb→lt _ _ far)))
      | inr near ↦
          transfer i e (near_answer p s i (ground arith) (ground arith))
            (near-IsAnswer s i h (ground arith))
    ]
  ]

  -- A message key is handed out once: after any answer for `i` a second request for `i` is refused
  -- as an old counter.
  pub get_sender_key_once :
      (s : SenderKeyState) (i : ℕ) (key : SenderMessageKey) (s' : SenderKeyState)
      → IsSound p root s.chain s.message_keys
      → get_sender_key p s i ≡ ok (key, s')
      → get_sender_key p s' i ≡ err (runtime_error "Received message with old counter")
  get_sender_key_once s i key s' h e =
      let a = get_sender_key-IsAnswer s i key s' h e in passed_refused p s' i a.passed a.gone

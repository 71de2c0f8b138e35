-- ===== src/Group/Ratchet/CatchUp.antt =====
-- The invariant of a state that follows a chain, and the loop that catches up with a message.
use wassupweb.Prelude.{
  ℕ, zero, suc, ◌+◌, ◌-◌, ◌≤◌, ◌≡◌, refl, sym, ap, ◌∙◌, false, List, [], ◌∷◌, arith, lt→ltb, All,
  length,
}
use wassupweb.Crypto.{Primitives}
use wassupweb.Group.Keys.{
  SenderChainKey, get_sender_message_key, get_next, chain_after, chain_after-next,
  iteration-get_next, iteration-message_key, message_key_of_seed,
}
use wassupweb.Group.State.{
  StoredKey, SenderKeyState, max_message_keys, has_key, add_sender_message_key, push_key,
}
use wassupweb.Group.Cipher.{catch_up}
use wassupweb.Group.Ratchet.Stored.{
  Distinct, IsStored, message_key_at, All-map, All-push_key, Distinct-push_key, length-push_key,
}

module _ (p : Primitives) (root : SenderChainKey) where
  -- `c` is the chain of `root` some steps on, and the skipped keys are keys of that chain before
  -- `c`, all of different iterations and at most 2000.
  pub record IsSound (c : SenderChainKey) (ks : List StoredKey) : Type 0 where
    pub after : root.iteration ≤ c.iteration
    pub on_chain : c ≡ chain_after p (c.iteration - root.iteration) root
    pub stored : All (IsStored p root c.iteration) ks
    pub distinct : Distinct ks
    pub bounded : length ks ≤ max_message_keys

  pub message_key-on_chain :
      {c : SenderChainKey} {ks : List StoredKey}
      → IsSound c ks
      → get_sender_message_key p c ≡ message_key_at p root c.iteration
  unfolding message_key_at
  message_key-on_chain h = ap (get_sender_message_key p) h.on_chain

  pub next-on_chain :
      {c : SenderChainKey} {ks : List StoredKey}
      → IsSound c ks
      → get_next p c ≡ chain_after p ((get_next p c).iteration - root.iteration) root
  next-on_chain {c} h =
      ap (get_next p) h.on_chain
      ∙ chain_after-next p (c.iteration - root.iteration) root
      ∙ ap (λ n. chain_after p n root) (omega (arith, iteration-get_next p c, h.after))

  pub IsStored-later :
      {b : ℕ} (b' : ℕ) (k : StoredKey) → b ≤ b' → IsStored p root b k → IsStored p root b' k
  IsStored-later b' k le h = record {
    from = h.from;
    before = omega (arith, h.before);
    derived = h.derived;
  }

  -- No stored key has an iteration at or past the chain's.
  pub has_key-beyond :
      (b i : ℕ) (ks : List StoredKey) → All (IsStored p root b) ks → b ≤ i → has_key i ks ≡ false
  unfolding has_key
  has_key-beyond b i [] h le = refl
  has_key-beyond b i (k ∷ ks) (hk, hks) le = ground (arith, hk.before, has_key-beyond b i ks hks le)

  abbrev key_of : SenderChainKey → StoredKey
  key_of c = record {
    iteration = (get_sender_message_key p c).iteration;
    seed = (get_sender_message_key p c).seed;
  }

  -- One round of the loop.
  IsSound-round :
      {c : SenderChainKey} {ks : List StoredKey}
      → IsSound c ks
      → IsSound (get_next p c) (push_key (key_of c) ks)
  IsSound-round {c} {ks} h = record {
    after = omega (arith, iteration-get_next p c, h.after);
    on_chain = next-on_chain h;
    stored =
        All-push_key (IsStored p root (get_next p c).iteration) (key_of c) ks
          (All-map
            (λ k s.
              IsStored-later (get_next p c).iteration k (omega (arith, iteration-get_next p c)) s)
            ks h.stored)
          (record {
            from = omega (arith, iteration-message_key p c, h.after);
            before = omega (arith, iteration-message_key p c, iteration-get_next p c);
            derived =
                message_key_of_seed p c
                ∙ message_key-on_chain h
                ∙ ap (message_key_at p root) (sym (iteration-message_key p c));
          });
    distinct = Distinct-push_key (key_of c) ks h.distinct (
        has_key-beyond c.iteration (key_of c).iteration ks h.stored
          (omega (arith, iteration-message_key p c)));
    bounded = length-push_key (key_of c) ks h.bounded;
  }

  -- The loop keeps the invariant and stops at the message's iteration.
  pub catch_up-IsSound :
      (fuel iteration : ℕ) (s : SenderKeyState) (c : SenderChainKey)
      → IsSound c s.message_keys
      → iteration ≡ c.iteration + fuel
      → IsSound (catch_up p fuel iteration s c).1 (catch_up p fuel iteration s c).0.message_keys
        × ((catch_up p fuel iteration s c).1.iteration ≡ iteration)
  unfolding catch_up
  catch_up-IsSound zero iteration s c h e = (h, omega arith)
  catch_up-IsSound (suc fuel) iteration s c h e = rw (lt→ltb c.iteration iteration (omega arith)) (
      catch_up-IsSound fuel iteration (add_sender_message_key (get_sender_message_key p c) s)
        (get_next p c) (unfold add_sender_message_key in IsSound-round h)
        (omega (arith, iteration-get_next p c)))

  -- The loop changes the skipped keys only.
  pub catch_up-fields :
      (fuel iteration : ℕ) (s : SenderKeyState) (c : SenderChainKey)
      → ((catch_up p fuel iteration s c).0.key_id ≡ s.key_id)
        × ((catch_up p fuel iteration s c).0.private ≡ s.private)
        × ((catch_up p fuel iteration s c).0.public ≡ s.public)
  unfolding catch_up add_sender_message_key
  catch_up-fields zero iteration s c = (refl, refl, refl)
  catch_up-fields (suc fuel) iteration s c = ground (
    arith,
    catch_up-fields fuel iteration (add_sender_message_key (get_sender_message_key p c) s)
        (get_next p c),
  )

-- ===== src/Group/Establish.antt =====
-- A new group session: what `create` makes and `process` takes over agree.
use wassupweb.Prelude.{
  ℕ, ◌-◌, ◌≡◌, refl, sym, ap, ◌∙◌, none, some, [], ◌∷◌, arith, Bytes, length, >>=-eq-ok,
  ok-injective, ok,
}
use wassupweb.Crypto.{Primitives}
use wassupweb.Group.Keys.{SenderChainKey, chain_after}
use wassupweb.Group.State.{SenderKeyState, make_state, get_signing_key_public}
use wassupweb.Group.Record.{
  SenderKeyRecord, is_empty, get_sender_key_state, find_state, last_state, set_sender_key_state,
}
use wassupweb.Group.Record.Window.{find_state-add, new_state}
use wassupweb.Group.Distribution.{DistributionMessage, make_distribution, parse_distribution}
use wassupweb.Group.Distribution.RoundTrip.{parse-make_distribution}
use wassupweb.Group.Builder.{FreshKeys, process, create}
use wassupweb.Group.Ratchet.{IsSound}

module _ (p : Primitives) where
  received_key :
      (t : SenderKeyState) (public : Bytes)
      → t.public ≡ 5 ∷ public
      → length public ≡ 32
      → get_signing_key_public t ≡ 5 ∷ public
  unfolding get_signing_key_public
  received_key t public e h = rw e (rw h)

  -- A chain follows itself, with no key skipped.
  pub IsSound-start : (c : SenderChainKey) → IsSound p c c []
  unfolding chain_after
  IsSound-start c = record {
    after = omega arith;
    on_chain = start (c.iteration - c.iteration) (omega arith);
    stored = tt;
    distinct = tt;
    bounded = omega arith;
  }
    where
      start : (n : ℕ) → n ≡ 0 → c ≡ chain_after p n c
      start n e = rw e

  module _ (fresh : FreshKeys) where
    abbrev first_state : SenderKeyState
    first_state = make_state fresh.key_id 0 fresh.sender_key fresh.public fresh.private

    create_made :
        (m : DistributionMessage) (r : SenderKeyRecord)
        → create fresh [] ≡ ok (m, r)
        → (make_distribution fresh.key_id 0 fresh.sender_key (get_signing_key_public first_state)
            ≡ ok m)
          × (r ≡ first_state ∷ [])
    unfolding create is_empty set_sender_key_state get_sender_key_state last_state make_state
    create_made m r e =
        let (m', made, rest) =
          >>=-eq-ok
            (make_distribution fresh.key_id 0 fresh.sender_key (get_signing_key_public first_state))
            _ e in
        let same = ok-injective rest in
        (made ∙ ap ok (ap (λ t. t.0) same), sym (ap (λ t. t.1) same))

    signing_key : length fresh.public ≡ 32 → get_signing_key_public first_state ≡ 5 ∷ fresh.public
    unfolding get_signing_key_public make_state
    signing_key h = rw h

    -- A fresh session: `create` on an empty record gives a message `m` and a record. A receiver that
    -- does not know the key id reads `m` from its bytes and lets `process` add it. Then both sides
    -- hold a state of the same id on the same chain with no key skipped, and the receiver has the
    -- sender's public signing key under a version byte.
    pub process-create :
        (m : DistributionMessage) (r q : SenderKeyRecord)
        → length fresh.public ≡ 32
        → create fresh [] ≡ ok (m, r)
        → find_state fresh.key_id q ≡ none
        → (s : SenderKeyState) × (t : SenderKeyState) × (parse_distribution m.serialized ≡ ok m)
          × (get_sender_key_state none r ≡ some s)
          × (get_sender_key_state (some s.key_id) (process m q) ≡ some t)
          × IsSound p s.chain s.chain s.message_keys
          × IsSound p s.chain t.chain t.message_keys
          × (get_signing_key_public t ≡ 5 ∷ fresh.public)
          × (s.private ≡ fresh.private)
    unfolding process get_sender_key_state make_state last_state
    process-create m r q size e unknown =
        let (made, stored) = create_made m r e in
        let (parsed, id, iteration, chain, key) =
          parse-make_distribution fresh.key_id 0 fresh.sender_key _ m made in
        let own = key ∙ signing_key size in
        (
          first_state,
          new_state m.id m.iteration m.chain_key m.signature_key q,
          parsed,
          rw stored refl,
          ap (λ (k : ℕ). find_state k (process m q)) (sym id)
              ∙ find_state-add m.id m.iteration m.chain_key m.signature_key q
                  (ap (λ (k : ℕ). find_state k q) id ∙ unknown),
          IsSound-start first_state.chain,
          rw (iteration, chain) (IsSound-start first_state.chain),
          received_key (new_state m.id m.iteration m.chain_key m.signature_key q) fresh.public own
              size,
          refl,
        )

-- ===== src/Group/Ratchet/Skipped.antt =====
-- Messages that were skipped stay readable: their keys are kept for the last 2000 iterations.
use wassupweb.Prelude.{
  ℕ, zero, suc, ◌+◌, ◌-◌, ◌≤◌, ◌<◌, ◌≡◌, refl, ap, ◌∙◌, ◌≢◌, inl, inr, true, false, List, [], ◌∷◌,
  ◌++◌, arith, ◌==◌, lt→ltb, ==_iff, Bool-cases, length, drop, length-append, ok,
}
use mathlib.Core.List.{append_assoc}
use native.Mathlib.Nat.{add-zero}
use wassupweb.Crypto.{Primitives}
use wassupweb.Group.Keys.{
  SenderMessageKey, SenderChainKey, get_sender_message_key, get_next, iteration-get_next,
  iteration-message_key,
}
use wassupweb.Group.State.{
  StoredKey, SenderKeyState, max_message_keys, has_key, push_key, add_sender_message_key,
}
use wassupweb.Group.Cipher.{catch_up, get_sender_key, max_future}
use wassupweb.Group.Ratchet.Stored.{message_key_at, push_key-cases, has_key-append}
use wassupweb.Group.Ratchet.CatchUp.{IsSound}
use wassupweb.Group.Ratchet.Keys.{passed_stored, near_answer, caught_up}
use wassupweb.Group.Ratchet.Answers.{get_sender_key-IsAnswer}

-- An entry of iteration `i` with at most `m` entries behind it.
pub record Recent (i m : ℕ) (ks : List StoredKey) : Type 0 where
  pub front : List StoredKey
  pub entry : StoredKey
  pub back : List StoredKey
  pub parts : ks ≡ front ++ (entry ∷ back)
  pub same : entry.iteration ≡ i
  pub near : length back ≤ m

abbrev more :
    {i m : ℕ} {ks : List StoredKey} (k : StoredKey)
    → Recent i m ks
    → Recent i (m + 1) (ks ++ k ∷ [])
more k r = record {
  front = r.front;
  entry = r.entry;
  back = r.back ++ k ∷ [];
  parts = rw r.parts (append_assoc r.front (r.entry ∷ r.back) (k ∷ []));
  same = r.same;
  near = omega (arith, length-append r.back (k ∷ []), r.near);
}

Recent-drop_one :
    (i m : ℕ) (ks : List StoredKey) → Recent i m ks → suc m < length ks → Recent i m (drop 1 ks)
Recent-drop_one i m ks r h = go r.front r.parts
  where
    go : (front : List StoredKey) → ks ≡ front ++ (r.entry ∷ r.back) → Recent i m (drop 1 ks)
    go [] e = absurd (omega (arith, ap length e, r.near))
    go (x ∷ xs) e = record {
      front = xs;
      entry = r.entry;
      back = r.back;
      parts = rw e refl;
      same = r.same;
      near = r.near;
    }

Recent-push_key :
    (i m : ℕ) (k : StoredKey) (ks : List StoredKey)
    → Recent i m ks
    → m + 1 < max_message_keys
    → Recent i (m + 1) (push_key k ks)
Recent-push_key i m k ks r h = elim (push_key-cases k ks) [
  | inl (_, e) ↦ rw e (more k r)
  | inr (full, e) ↦ rw e (
      Recent-drop_one i (m + 1) (ks ++ k ∷ []) (more k r)
        (omega (arith, length-append ks (k ∷ []))))
]

Recent-push_key_self :
    (i : ℕ) (k : StoredKey) (ks : List StoredKey) → k.iteration ≡ i → Recent i 0 (push_key k ks)
Recent-push_key_self i k ks same = elim (push_key-cases k ks) [
  | inl (_, e) ↦ rw e last
  | inr (full, e) ↦
      rw e (Recent-drop_one i 0 (ks ++ k ∷ []) last (omega (arith, length-append ks (k ∷ []))))
]
  where
    last : Recent i 0 (ks ++ k ∷ [])
    last = record {
      front = ks;
      entry = k;
      back = [];
      parts = refl;
      same = same;
      near = omega arith;
    }

Recent-has_key : (i m : ℕ) (ks : List StoredKey) → Recent i m ks → has_key i ks ≡ true
unfolding has_key
Recent-has_key i m ks r =
    rw r.parts (ground (arith, has_key-append i r.front (r.entry ∷ r.back), r.same))

module _ (p : Primitives) where
  -- Later rounds push the entry back by one place each.
  catch_up-kept :
      (fuel i m iteration : ℕ) (s : SenderKeyState) (c : SenderChainKey)
      → Recent i m s.message_keys
      → iteration ≡ c.iteration + fuel
      → m + fuel < max_message_keys
      → Recent i (m + fuel) (catch_up p fuel iteration s c).0.message_keys
  unfolding catch_up
  catch_up-kept zero i m iteration s c r e h = rw add-zero r
  catch_up-kept (suc fuel) i m iteration s c r e h =
      rw (lt→ltb c.iteration iteration (omega arith), shift)
        (catch_up-kept fuel i (m + 1) iteration
          (add_sender_message_key (get_sender_message_key p c) s) (get_next p c)
          (unfold add_sender_message_key in Recent-push_key i m _ s.message_keys r (omega arith))
          (omega (arith, iteration-get_next p c)) (omega arith))
    where
      shift : m + suc fuel ≡ (m + 1) + fuel
      shift = omega arith

  -- The loop passes message `i` and stores its key.
  catch_up-Recent :
      (fuel i iteration : ℕ) (s : SenderKeyState) (c : SenderChainKey)
      → iteration ≡ c.iteration + fuel
      → c.iteration ≤ i
      → i < iteration
      → iteration ≤ i + max_message_keys
      → Recent i (iteration - i - 1) (catch_up p fuel iteration s c).0.message_keys
  unfolding catch_up
  catch_up-Recent zero i iteration s c e lo hi fit = absurd (omega arith)
  catch_up-Recent (suc fuel) i iteration s c e lo hi fit =
      rw (lt→ltb c.iteration iteration (omega arith)) (elim (Bool-cases (c.iteration == i)) [
        | inl here ↦ now ((==_iff _ i).0 here)
        | inr later ↦
            catch_up-Recent fuel i iteration next (get_next p c)
              (omega (arith, iteration-get_next p c))
              (omega (arith, iteration-get_next p c, ne later)) hi fit
      ])
    where
      next : SenderKeyState
      next = add_sender_message_key (get_sender_message_key p c) s

      ne : (c.iteration == i) ≡ false → c.iteration ≢ i
      ne h = ground arith

      distance : c.iteration ≡ i → iteration - i - 1 ≡ 0 + fuel
      distance same = omega arith

      now :
          c.iteration ≡ i
          → Recent i
              (iteration - i - 1)
              (catch_up p fuel iteration next (get_next p c)).0.message_keys
      now same = rw (distance same) (
          catch_up-kept fuel i 0 iteration next (get_next p c)
            (unfold add_sender_message_key in
              Recent-push_key_self i _ s.message_keys (iteration-message_key p c ∙ same))
            (omega (arith, iteration-get_next p c)) (omega arith))

  -- Message `j` overtakes message `i`: a state that follows the chain of `root` and has not passed
  -- `i` answers `j`, at most 2000 further on, and its next state still answers `i`, with the key of
  -- `i` on the chain.
  pub get_sender_key_skipped :
      (root : SenderChainKey) (s : SenderKeyState) (i j : ℕ)
      → IsSound p root s.chain s.message_keys
      → s.chain.iteration ≤ i
      → i < j
      → j ≤ s.chain.iteration + max_future
      → (key : SenderMessageKey) × (s' : SenderKeyState) × (s'' : SenderKeyState) × (get_sender_key
            p s j
          ≡ ok (key, s'))
        × (get_sender_key p s' i ≡ ok (message_key_at p root i, s''))
  get_sender_key_skipped root s i j h lo lt hi =
      let first = near_answer p s j (omega arith) hi in
      let s' : SenderKeyState = record (caught_up p s j).0 {
        chain = get_next p (caught_up p s j).1;
      } in
      let a = get_sender_key-IsAnswer p root s j _ s' h first in
      let kept =
        Recent-has_key i (j - i - 1) (caught_up p s j).0.message_keys (
          catch_up-Recent (j - s.chain.iteration) i j s s.chain (omega arith) lo lt
            (omega arith)) in
      let (k, left, _, second) = passed_stored p s' i (omega (arith, a.passed)) kept in
      let b = get_sender_key-IsAnswer p root s' i _ _ a.sound second in
      (_, s', record s' { message_keys = left }, first, rw (← b.right) second)

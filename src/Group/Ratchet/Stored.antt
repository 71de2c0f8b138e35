-- ===== src/Group/Ratchet/Stored.antt =====
-- The list of skipped keys: what `push_key` and `pop_key` keep.
use wassupweb.Prelude.{
  ℕ, suc, ◌-◌, ◌≤◌, ◌<◌, ◌≡◌, refl, ap, ◌∙◌, ◌≢◌, ◌⊎◌, inl, inr, true, false, ◌||◌, some, List, [],
  ◌∷◌, ◌++◌, arith, ltb, ◌==◌, ltb→lt, ==_iff, Bool-cases, Option-cases, All, All-append, length,
  drop, length-append, length-drop,
}
use wassupweb.Crypto.{Primitives}
use wassupweb.Group.Keys.{
  iteration-message_key, iteration-chain_after, SenderMessageKey, SenderChainKey,
  sender_message_key, get_sender_message_key, chain_after,
}
use wassupweb.Group.State.{StoredKey, max_message_keys, has_key, push_key, pop_key}

-- No two entries have the same iteration.
abbrev pub Distinct : List StoredKey → Type 0
Distinct [] = Unit
Distinct (k ∷ ks) = (has_key k.iteration ks ≡ false) × Distinct ks

pub has_key-append :
    (i : ℕ) (xs ys : List StoredKey) → has_key i (xs ++ ys) ≡ (has_key i xs || has_key i ys)
unfolding has_key
has_key-append i [] ys = refl
has_key-append i (x ∷ xs) ys = ground (arith, has_key-append i xs ys)

Distinct-push :
    (xs : List StoredKey) (k : StoredKey)
    → Distinct xs
    → has_key k.iteration xs ≡ false
    → Distinct (xs ++ k ∷ [])
unfolding has_key
Distinct-push [] k h n = (refl, tt)
Distinct-push (x ∷ xs) k (hx, hxs) n =
    (ground (arith, has_key-append x.iteration xs (k ∷ [])), Distinct-push xs k hxs (ground arith))

All-drop_one {ℓ} : {A : Type 0} (P : A → Type ℓ) (xs : List A) → All P xs → All P (drop 1 xs)
All-drop_one P [] h = h
All-drop_one P (x ∷ xs) (hx, hxs) = hxs

Distinct-drop_one : (xs : List StoredKey) → Distinct xs → Distinct (drop 1 xs)
Distinct-drop_one [] h = h
Distinct-drop_one (x ∷ xs) (hx, hxs) = hxs

-- The entry goes to the end, and the oldest one leaves a full list.
pub push_key-cases :
    (k : StoredKey) (ks : List StoredKey)
    → ((length ks < max_message_keys) × (push_key k ks ≡ ks ++ k ∷ []))
      ⊎ ((max_message_keys ≤ length ks) × (push_key k ks ≡ drop 1 (ks ++ k ∷ [])))
unfolding push_key
push_key-cases k ks = elim (Bool-cases (ltb max_message_keys (length (ks ++ k ∷ [])))) [
  | inl full ↦ inr (omega (arith, ltb→lt _ _ full, length-append ks (k ∷ [])), rw full)
  | inr room ↦ inl (omega (arith, not_lt room, length-append ks (k ∷ [])), rw room)
]
  where
    not_lt :
        ltb max_message_keys (length (ks ++ k ∷ [])) ≡ false
        → length (ks ++ k ∷ []) ≤ max_message_keys
    not_lt h = ground arith

pub All-push_key {ℓ} :
    (P : StoredKey → Type ℓ) (k : StoredKey) (ks : List StoredKey)
    → All P ks
    → P k
    → All P (push_key k ks)
All-push_key P k ks h hk = elim (push_key-cases k ks) [
  | inl (_, e) ↦ rw e (All-append P ks (k ∷ []) h (hk, tt))
  | inr (_, e) ↦ rw e (All-drop_one P (ks ++ k ∷ []) (All-append P ks (k ∷ []) h (hk, tt)))
]

pub Distinct-push_key :
    (k : StoredKey) (ks : List StoredKey)
    → Distinct ks
    → has_key k.iteration ks ≡ false
    → Distinct (push_key k ks)
Distinct-push_key k ks h n = elim (push_key-cases k ks) [
  | inl (_, e) ↦ rw e (Distinct-push ks k h n)
  | inr (_, e) ↦ rw e (Distinct-drop_one (ks ++ k ∷ []) (Distinct-push ks k h n))
]

pub length-push_key :
    (k : StoredKey) (ks : List StoredKey)
    → length ks ≤ max_message_keys
    → length (push_key k ks) ≤ max_message_keys
length-push_key k ks h = elim (push_key-cases k ks) [
  | inl (lt, e) ↦ rw e (omega (arith, length-append ks (k ∷ [])))
  | inr (_, e) ↦ rw e (omega (arith, length-drop 1 (ks ++ k ∷ []), length-append ks (k ∷ [])))
]

pub All-map {ℓ κ} :
    {P : StoredKey → Type ℓ} {Q : StoredKey → Type κ} (f : (k : StoredKey) → P k → Q k)
    (ks : List StoredKey)
    → All P ks
    → All Q ks
All-map f [] h = tt
All-map f (k ∷ ks) (hk, hks) = (f k hk, All-map f ks hks)

-- `Pop i ks k left`: the first entry of iteration `i` in `ks` is `k`, and `left` are the others.
pub data Pop (i : ℕ) : List StoredKey → StoredKey → List StoredKey → Type 0 where
  here : {k : StoredKey} {ks : List StoredKey} → k.iteration ≡ i → Pop i (k ∷ ks) k ks
  there :
      {x k : StoredKey} {ks left : List StoredKey}
      → x.iteration ≢ i
      → Pop i ks k left
      → Pop i (x ∷ ks) k (x ∷ left)

pub pop_key-Pop :
    (i : ℕ) (ks : List StoredKey) (k : StoredKey) (left : List StoredKey)
    → pop_key i ks ≡ some (k, left)
    → Pop i ks k left
unfolding pop_key
pop_key-Pop i [] k left e = absurd (cc)
pop_key-Pop i (x ∷ xs) k left e = elim (Bool-cases (x.iteration == i)) [
  | inl same ↦
      let ek : x ≡ k = ground arith in
      let el : xs ≡ left = ground arith in rw (← ek, ← el) (here ((==_iff _ i).0 same))
  | inr other ↦ elim (Option-cases (pop_key i xs)) [
    | inl nothing ↦ absurd (ground arith)
    | inr ((k', left'), r) ↦
        let ek : k' ≡ k = ground arith in
        let el : x ∷ left' ≡ left = ground arith in
        rw (← ek, ← el) (there (λ same. ground arith) (pop_key-Pop i xs k' left' r))
  ]
]

-- The iteration is there exactly if `has_key` says so.
pub pop_key-some :
    (i : ℕ) (ks : List StoredKey)
    → has_key i ks ≡ true
    → (r : StoredKey × List StoredKey) × (pop_key i ks ≡ some r)
unfolding has_key pop_key
pop_key-some i [] h = absurd (cc)
pop_key-some i (k ∷ ks) h = elim (Bool-cases (k.iteration == i)) [
  | inl same ↦ ((k, ks), rw same)
  | inr other ↦ let (r, e) = pop_key-some i ks (ground arith) in ((r.0, k ∷ r.1), rw (other, e))
]

pub iteration-Pop :
    {i : ℕ} {ks : List StoredKey} {k : StoredKey} {left : List StoredKey}
    → Pop i ks k left
    → k.iteration ≡ i
iteration-Pop (here e) = e
iteration-Pop (there n d) = iteration-Pop d

pub length-Pop :
    {i : ℕ} {ks : List StoredKey} {k : StoredKey} {left : List StoredKey}
    → Pop i ks k left
    → length ks ≡ suc (length left)
length-Pop (here e) = refl
length-Pop (there n d) = ap suc (length-Pop d)

pub All-Pop {ℓ} :
    (P : StoredKey → Type ℓ) {i : ℕ} {ks : List StoredKey} {k : StoredKey} {left : List StoredKey}
    → Pop i ks k left
    → All P ks
    → P k × All P left
All-Pop P (here e) (hk, hks) = (hk, hks)
All-Pop P (there n d) (hx, hxs) = let (hk, hl) = All-Pop P d hxs in (hk, (hx, hl))

has_key-Pop :
    {i : ℕ} {ks : List StoredKey} {k : StoredKey} {left : List StoredKey} (j : ℕ)
    → Pop i ks k left
    → has_key j ks ≡ false
    → has_key j left ≡ false
unfolding has_key
has_key-Pop j (here e) h = ground arith
has_key-Pop j (there n d) h = ground (arith, has_key-Pop j d)

-- After the removal the iteration is gone, and the others are still distinct.
pub Distinct-Pop :
    {i : ℕ} {ks : List StoredKey} {k : StoredKey} {left : List StoredKey}
    → Pop i ks k left
    → Distinct ks
    → Distinct left × (has_key i left ≡ false)
unfolding has_key
Distinct-Pop (here {k = k} {ks = ks} e) (hx, hxs) = (hxs, rw e at hx)
Distinct-Pop (there {x = x} n d) (hx, hxs) =
    let (hl, gone) = Distinct-Pop d hxs in ((has_key-Pop x.iteration d hx, hl), ground arith)

module _ (p : Primitives) (root : SenderChainKey) where
  -- The key of message `i` on the chain that starts at `root`.
  unfoldable pub message_key_at : ℕ → SenderMessageKey
  message_key_at i = get_sender_message_key p (chain_after p (i - root.iteration) root)

  pub iteration-message_key_at : (i : ℕ) → root.iteration ≤ i → (message_key_at i).iteration ≡ i
  unfolding message_key_at
  iteration-message_key_at i h =
      iteration-message_key p _ ∙ iteration-chain_after p (i - root.iteration) root ∙ omega arith

  -- A skipped key lies on the chain, before `bound`.
  pub record IsStored (bound : ℕ) (k : StoredKey) : Type 0 where
    pub from : root.iteration ≤ k.iteration
    pub before : k.iteration < bound
    pub derived : sender_message_key p k.iteration k.seed ≡ message_key_at k.iteration

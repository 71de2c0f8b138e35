-- ===== src/Locks/Exclusion.antt =====
-- Tasks on one key share one lock, and the last one takes it away.
use wassupweb.Prelude.{
  ℕ, ◌+◌, ◌-◌, ◌≤◌, ◌<◌, ◌≡◌, refl, sym, ap, ◌∙◌, inl, inr, true, false, none, some, arith, leb,
  Bool-cases, Option-cases,
}
use wassupweb.Text.{Text, text_eq, text_eq_iff}
use wassupweb.Locks.{KeyedMutex, update, make_keyed_mutex, lock_of, get_lock, release_lock}

-- What calls of `mutex` lead to: how many tasks stand between `_get_lock` and `_release_lock` of a key.
pub data Uses : KeyedMutex → (Text → ℕ) → Type 0 where
  start : Uses make_keyed_mutex (λ k. 0)
  enter :
      (key : Text) (m : KeyedMutex) (users : Text → ℕ)
      → Uses m users
      → Uses (get_lock key m).1 (update key (users key + 1) users)
  leave :
      (key : Text) (m : KeyedMutex) (users : Text → ℕ)
      → Uses m users
      → 0 < users key
      → Uses (release_lock key m) (update key (users key - 1) users)

-- The count is the number of users, and a key has a lock exactly while it has users.
pub record IsCounted (m : KeyedMutex) (users : Text → ℕ) : Type 0 where
  pub counted : (k : Text) → m.ref_count k ≡ users k
  pub locked : (k : Text) → 0 < users k → (lock : ℕ) × (m.locks k ≡ some lock)
  pub freed : (k : Text) → users k ≡ 0 → m.locks k ≡ none

update_same {ℓ} :
    {A : Type ℓ} (key : Text) (value : A) (table : Text → A) (k : Text)
    → text_eq key k ≡ true
    → update key value table k ≡ value
unfolding update
update_same key value table k e = rw (update, e) refl

update_other {ℓ} :
    {A : Type ℓ} (key : Text) (value : A) (table : Text → A) (k : Text)
    → text_eq key k ≡ false
    → update key value table k ≡ table k
unfolding update
update_other key value table k e = rw (update, e) refl

enter_same :
    (key : Text) (m : KeyedMutex) (k : Text)
    → text_eq key k ≡ true
    → (lock : ℕ) × ((get_lock key m).1.locks k ≡ some lock)
unfolding get_lock
enter_same key m k e = elim (Option-cases (m.locks key)) [
  | inl new ↦ (m.made, rw (lock_of, new) (update_same key (some m.made) m.locks k e))
  | inr (lock, old) ↦ (lock, rw (lock_of, old) (ap m.locks (sym ((text_eq_iff key k).0 e)) ∙ old))
]

enter_other :
    (key : Text) (m : KeyedMutex) (k : Text)
    → text_eq key k ≡ false
    → (get_lock key m).1.locks k ≡ m.locks k
unfolding get_lock
enter_other key m k e = elim (Option-cases (m.locks key)) [
  | inl new ↦ rw (lock_of, new) (update_other key (some m.made) m.locks k e)
  | inr (lock, old) ↦ rw (lock_of, old) refl
]

no_successor {ℓ} : {A : Type ℓ} (n : ℕ) → 0 ≡ n + 1 → A
no_successor n e = absurd (impossible n e)
  where
    impossible : (n : ℕ) → 0 ≡ n + 1 → ⊥
    impossible n e = omega arith

IsCounted-enter :
    (key : Text) (m : KeyedMutex) (users : Text → ℕ)
    → IsCounted m users
    → IsCounted (get_lock key m).1 (update key (users key + 1) users)
unfolding get_lock
IsCounted-enter key m users h = record {
  counted = λ k. elim (Bool-cases (text_eq key k)) [
    | inl e ↦
        update_same key (m.ref_count key + 1) m.ref_count k e
        ∙ ap (λ (x : ℕ). x + 1) (h.counted key)
        ∙ sym (update_same key (users key + 1) users k e)
    | inr e ↦
        update_other key (m.ref_count key + 1) m.ref_count k e
        ∙ h.counted k
        ∙ sym (update_other key (users key + 1) users k e)
  ];
  locked = λ k used. elim (Bool-cases (text_eq key k)) [
    | inl e ↦ enter_same key m k e
    | inr e ↦
        let (lock, held) = h.locked k (rw⁻¹ (update_other key (users key + 1) users k e) used) in
        (lock, enter_other key m k e ∙ held)
  ];
  freed = λ k none_left. elim (Bool-cases (text_eq key k)) [
    | inl e ↦ no_successor (users key) (sym none_left ∙ update_same key (users key + 1) users k e)
    | inr e ↦
        enter_other key m k e
        ∙ h.freed k (sym (update_other key (users key + 1) users k e) ∙ none_left)
  ];
}

release_last :
    (key : Text) (m : KeyedMutex)
    → leb (m.ref_count key) 1 ≡ true
    → release_lock key m
      ≡ record m { ref_count = update key 0 m.ref_count; locks = update key none m.locks }
unfolding release_lock
release_last key m e = rw (release_lock, e) refl

release_one :
    (key : Text) (m : KeyedMutex)
    → leb (m.ref_count key) 1 ≡ false
    → release_lock key m ≡ record m { ref_count = update key (m.ref_count key - 1) m.ref_count }
unfolding release_lock
release_one key m e = rw (release_lock, e) refl

-- Both sides are updated to the same value.
update_both :
    (key : Text) (x y : ℕ) (f g : Text → ℕ) (k : Text)
    → x ≡ y
    → f k ≡ g k
    → update key x f k ≡ update key y g k
update_both key x y f g k same rest = elim (Bool-cases (text_eq key k)) [
  | inl e ↦ update_same key x f k e ∙ same ∙ sym (update_same key y g k e)
  | inr e ↦ update_other key x f k e ∙ rest ∙ sym (update_other key y g k e)
]

IsCounted-last :
    (key : Text) (m : KeyedMutex) (users : Text → ℕ)
    → IsCounted m users
    → users key ≤ 1
    → IsCounted
        (record m { ref_count = update key 0 m.ref_count; locks = update key none m.locks })
        (update key (users key - 1) users)
IsCounted-last key m users h last = record {
  counted = λ k. update_both key 0 (users key - 1) m.ref_count users k (omega arith) (h.counted k);
  locked = λ k used. elim (Bool-cases (text_eq key k)) [
    | inl e ↦
        let left = update_same key (users key - 1) users k e in
        absurd (gone (users key) (update key (users key - 1) users k) left last used)
    | inr e ↦
        let (lock, held) = h.locked k (rw⁻¹ (update_other key (users key - 1) users k e) used) in
        (lock, update_other key none m.locks k e ∙ held)
  ];
  freed = λ k none_left. elim (Bool-cases (text_eq key k)) [
    | inl e ↦ update_same key none m.locks k e
    | inr e ↦
        update_other key none m.locks k e
        ∙ h.freed k (sym (update_other key (users key - 1) users k e) ∙ none_left)
  ];
}
  where
    gone : (u x : ℕ) → x ≡ u - 1 → u ≤ 1 → 0 < x → ⊥
    gone u x e last used = omega arith

IsCounted-one :
    (key : Text) (m : KeyedMutex) (users : Text → ℕ)
    → IsCounted m users
    → 1 < users key
    → IsCounted
        (record m { ref_count = update key (m.ref_count key - 1) m.ref_count })
        (update key (users key - 1) users)
IsCounted-one key m users h more = record {
  counted = λ k.
      update_both key (m.ref_count key - 1) (users key - 1) m.ref_count users k
        (omega (arith, h.counted key)) (h.counted k);
  locked = λ k used. elim (Bool-cases (text_eq key k)) [
    | inl e ↦
        let (lock, held) = h.locked key (omega arith) in
        (lock, ap m.locks (sym ((text_eq_iff key k).0 e)) ∙ held)
    | inr e ↦ h.locked k (rw⁻¹ (update_other key (users key - 1) users k e) used)
  ];
  freed = λ k none_left. elim (Bool-cases (text_eq key k)) [
    | inl e ↦
        absurd (gone (users key) (sym none_left ∙ update_same key (users key - 1) users k e) more)
    | inr e ↦ h.freed k (sym (update_other key (users key - 1) users k e) ∙ none_left)
  ];
}
  where
    gone : (u : ℕ) → 0 ≡ u - 1 → 1 < u → ⊥
    gone u e more = omega arith

-- In every state that calls of `mutex` lead to, the reference count of a key is the number of tasks
-- that use it, and the key has a lock exactly while there is one.
pub Uses-IsCounted : (m : KeyedMutex) (users : Text → ℕ) → Uses m users → IsCounted m users
unfolding make_keyed_mutex
Uses-IsCounted _ _ start = record {
  counted = λ k. refl;
  locked = λ k used. absurd (none_used used);
  freed = λ k none_left. refl;
}
  where
    none_used : 0 < 0 → ⊥
    none_used h = omega arith
Uses-IsCounted _ _ (enter key m users u) = IsCounted-enter key m users (Uses-IsCounted m users u)
Uses-IsCounted _ _ (leave key m users u used) =
    let h = Uses-IsCounted m users u in
    elim (Bool-cases (leb (m.ref_count key) 1)) [
      | inl last ↦
          rw (release_last key m last)
            (IsCounted-last key m users h (few (m.ref_count key) (users key) (h.counted key) last))
      | inr more ↦
          rw (release_one key m more)
            (IsCounted-one key m users h (many (m.ref_count key) (users key) (h.counted key) more))
    ]
  where
    few : (r u : ℕ) → r ≡ u → leb r 1 ≡ true → u ≤ 1
    few r u e h = ground arith

    many : (r u : ℕ) → r ≡ u → leb r 1 ≡ false → 1 < u
    many r u e h = ground arith

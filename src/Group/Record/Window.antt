-- ===== src/Group/Record/Window.antt =====
-- A record is a window on the last five states.
use wassupweb.Prelude.{
  ℕ, ◌≤◌, ◌<◌, ◌≡◌, refl, ap, ◌⊎◌, inl, inr, none, some, [], ◌∷◌, ◌++◌, arith, ltb, ltb→lt,
  Bool-cases, ltb→le, Bytes, length, length-append,
}
use wassupweb.Group.State.{SenderKeyState, make_state}
use wassupweb.Group.Record.{
  SenderKeyRecord, max_states, find_state, last_state, get_sender_key_state, add_sender_key_state,
}

last_state-append : (r : SenderKeyRecord) (s : SenderKeyState) → last_state (r ++ s ∷ []) ≡ some s
unfolding last_state
last_state-append [] s = refl
last_state-append (x ∷ []) s = refl
last_state-append (x ∷ y ∷ r) s = last_state-append (y ∷ r) s

find_state-append :
    (k : ℕ) (r : SenderKeyRecord) (s : SenderKeyState)
    → find_state k r ≡ none
    → s.key_id ≡ k
    → find_state k (r ++ s ∷ []) ≡ some s
unfolding find_state
find_state-append k [] s h e = ground arith
find_state-append k (x ∷ r) s h e = ground (arith, find_state-append k r s)

-- The new state goes to the end, and the oldest one leaves a full record.
add-cases :
    (key_id iteration : ℕ) (chain_key public : Bytes) (r : SenderKeyRecord)
    → let s = make_state key_id iteration chain_key public [] in
      ((length r < max_states)
        × (add_sender_key_state key_id iteration chain_key public r ≡ r ++ s ∷ []))
      ⊎ ((x : SenderKeyState) × (r' : SenderKeyRecord) × (max_states ≤ length r)
          × (r ≡ x ∷ r')
          × (add_sender_key_state key_id iteration chain_key public r ≡ r' ++ s ∷ []))
unfolding add_sender_key_state
add-cases key_id iteration chain_key public [] = inl (omega arith, refl)
add-cases key_id iteration chain_key public (x ∷ r) =
    let s = make_state key_id iteration chain_key public [] in
    elim (Bool-cases (ltb max_states (length (x ∷ (r ++ s ∷ []))))) [
      | inl full ↦
          inr (x, r, omega (arith, ltb→lt _ _ full, length-append r (s ∷ [])), refl, rw full)
      | inr room ↦ inl (omega (arith, ltb→le _ _ room, length-append r (s ∷ [])), rw room)
    ]

module _ (key_id iteration : ℕ) (chain_key public : Bytes) (r : SenderKeyRecord) where
  abbrev added : SenderKeyRecord
  added = add_sender_key_state key_id iteration chain_key public r

  abbrev pub new_state : SenderKeyState
  new_state = make_state key_id iteration chain_key public []

  -- A record of at most five states has at most five after a state is added, at least one, and
  -- asked for no id it gives the new state.
  pub add_sender_key_state_window :
      length r ≤ max_states
      → (length added ≤ max_states)
        × (1 ≤ length added)
        × (get_sender_key_state none added ≡ some new_state)
  unfolding get_sender_key_state
  add_sender_key_state_window h = elim (add-cases key_id iteration chain_key public r) [
    | inl (room, e) ↦ rw e (
      omega (arith, length-append r (new_state ∷ [])),
      omega (arith, length-append r (new_state ∷ [])),
      last_state-append r new_state,
    )
    | inr (x, r', full, eq, e) ↦ rw e (
      omega (arith, length-append r' (new_state ∷ []), ap length eq),
      omega (arith, length-append r' (new_state ∷ [])),
      last_state-append r' new_state,
    )
  ]

  -- A key id that the record did not know is found after it is added.
  pub find_state-add : find_state key_id r ≡ none → find_state key_id added ≡ some new_state
  unfolding find_state make_state
  find_state-add h = elim (add-cases key_id iteration chain_key public r) [
    | inl (room, e) ↦ rw e (find_state-append key_id r new_state h refl)
    | inr (x, r', full, eq, e) ↦
        rw e (find_state-append key_id r' new_state (rest x r' (rw eq at h)) refl)
  ]
    where
      rest :
          (x : SenderKeyState) (r' : SenderKeyRecord)
          → find_state key_id (x ∷ r') ≡ none
          → find_state key_id r' ≡ none
      rest x r' g = ground arith

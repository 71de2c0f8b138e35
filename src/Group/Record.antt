-- ===== src/Group/Record.antt =====
-- wassupweb/signal/group/sender_key_record.py: the last five states of a sender.
pub mod Window
use wassupweb.Prelude.{
  ℕ, Bool, Option, none, some, List, [], ◌∷◌, ◌++◌, ltb, ◌==◌, if◌then◌else◌, Bytes, length, drop,
}
use wassupweb.Group.State.{SenderKeyState, make_state}

abbrev pub SenderKeyRecord : Type 0
SenderKeyRecord = List SenderKeyState

abbrev pub max_states : ℕ
max_states = 5

unfoldable pub is_empty : SenderKeyRecord → Bool
is_empty r = length r == 0

-- `next((state for state in states if state.get_key_id() == key_id), None)`
unfoldable pub find_state : ℕ → SenderKeyRecord → Option SenderKeyState
find_state key_id [] = none
find_state key_id (s ∷ r) = if s.key_id == key_id then some s else find_state key_id r

-- `states[-1]`
unfoldable pub last_state : SenderKeyRecord → Option SenderKeyState
last_state [] = none
last_state (s ∷ []) = some s
last_state (s ∷ t ∷ r) = last_state (t ∷ r)

unfoldable pub get_sender_key_state : Option ℕ → SenderKeyRecord → Option SenderKeyState
get_sender_key_state none r = last_state r
get_sender_key_state (some key_id) r = find_state key_id r

replace_state : ℕ → SenderKeyState → SenderKeyRecord → SenderKeyRecord
replace_state key_id s' [] = []
replace_state key_id s' (s ∷ r) =
    if s.key_id == key_id then s' ∷ r else s ∷ replace_state key_id s' r

replace_last : SenderKeyState → SenderKeyRecord → SenderKeyRecord
replace_last s' [] = []
replace_last s' (s ∷ []) = s' ∷ []
replace_last s' (s ∷ t ∷ r) = s ∷ replace_last s' (t ∷ r)

-- The caller changes the state that `get_sender_key_state` returned in place.
unfoldable pub put_sender_key_state : Option ℕ → SenderKeyState → SenderKeyRecord → SenderKeyRecord
unfolding replace_state replace_last
put_sender_key_state none s r = replace_last s r
put_sender_key_state (some key_id) s r = replace_state key_id s r

unfoldable pub add_sender_key_state : ℕ → ℕ → Bytes → Bytes → SenderKeyRecord → SenderKeyRecord
add_sender_key_state key_id iteration chain_key public r =
    let states = r ++ make_state key_id iteration chain_key public [] ∷ [] in
    if ltb max_states (length states) then drop 1 states else states

-- `key_pair` is a pair of a public and a private key.
unfoldable pub set_sender_key_state :
    ℕ → ℕ → Bytes → Bytes → Bytes → SenderKeyRecord → SenderKeyRecord
set_sender_key_state key_id iteration chain_key public private r =
    make_state key_id iteration chain_key public private ∷ []

-- ===== src/Group/Name.antt =====
-- wassupweb/signal/group/sender_key_name.py: the names under which sender keys are stored. Text is a
-- list of code points here, since the hash reads them.
use wassupweb.Prelude.{
  ℕ, ◌+◌, ◌*◌, ◌%◌, ◌<◌, ◌≡◌, refl, Bool, true, false, ◌&&◌, Option, none, some, List, [], ◌∷◌,
  ◌++◌, arith, ltb, if◌then◌else◌,
}
use Prim.Native.Nat.{bit_xor}
use wassupweb.Text.{text_eq, text_eq_iff}
use wassupweb.Text.Number.{ℤ, str_int}

pub record Sender : Type 0 where
  pub id : List ℕ
  pub device_id : ℤ

pub record SenderKeyName : Type 0 where
  pub group_id : List ℕ
  pub sender : Sender

-- What is above 0x7FFFFFFF is cut to 32 bits; the numbers here are not negative.
unfoldable pub int_value : ℕ → ℕ
int_value num = if ltb 0x7fffffff num then num % 4294967296 else num

unfoldable pub hash_from : ℕ → List ℕ → ℕ
unfolding int_value
hash_from value [] = value
hash_from value (c ∷ text) = hash_from (int_value (value * 31 + c)) text

unfoldable pub text_hash_code : List ℕ → ℕ
unfolding hash_from
text_hash_code text = hash_from 0 text

unfoldable pub sender_string : Sender → List ℕ
sender_string s = s.id ++ b':' ∷ str_int s.device_id

unfoldable pub serialize : SenderKeyName → List ℕ
serialize n = n.group_id ++ b':' ∷ b':' ∷ (n.sender.id ++ b':' ∷ b':' ∷ str_int n.sender.device_id)

unfoldable pub equals : SenderKeyName → Option SenderKeyName → Bool
unfolding sender_string
equals n none = false
equals n (some other) =
    text_eq n.group_id other.group_id
    && text_eq (sender_string n.sender) (sender_string other.sender)

unfoldable pub hash_code : SenderKeyName → ℕ
unfolding text_hash_code sender_string
hash_code n = bit_xor (text_hash_code n.group_id) (text_hash_code (sender_string n.sender))

hash_from-bound :
    (value : ℕ) (text : List ℕ) → value < 4294967296 → hash_from value text < 4294967296
unfolding hash_from int_value
hash_from-bound value [] h = h
hash_from-bound value (c ∷ text) h =
    hash_from-bound (int_value (value * 31 + c)) text (ground arith)

both_true : (a b : Bool) → (a && b) ≡ true → (a ≡ true) × (b ≡ true)
both_true true true e = (refl, refl)
both_true true false e = cc
both_true false b e = cc

-- Names that `equals` calls the same have the same hash code, and both parts of a hash code fit 32 bits.
pub hash_code-equals :
    (n other : SenderKeyName)
    → equals n (some other) ≡ true
    → (hash_code n ≡ hash_code other)
      × (text_hash_code n.group_id < 4294967296)
      × (text_hash_code (sender_string n.sender) < 4294967296)
unfolding equals hash_code text_hash_code
hash_code-equals n other e =
    let (a, b) =
      both_true (text_eq n.group_id other.group_id)
        (text_eq (sender_string n.sender) (sender_string other.sender)) e in
    let group = (text_eq_iff n.group_id other.group_id).0 a in
    let sender = (text_eq_iff (sender_string n.sender) (sender_string other.sender)).0 b in
    (
      rw (group, sender) refl,
      hash_from-bound 0 n.group_id (omega arith),
      hash_from-bound 0 (sender_string n.sender) (omega arith),
    )

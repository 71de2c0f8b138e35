-- ===== src/Identity.antt =====
-- wassupweb/utils/identity_change_handler.py: what is done when a contact's identity key changes.
pub mod Debounce
use wassupweb.Prelude.{
  ℕ, zero, suc, ◌+◌, ◌-◌, ◌*◌, ◌/◌, ◌%◌, ◌^◌, ◌≤◌, ◌<◌, min, max, bit_and, bit_or, String, ◌≡◌,
  refl, sym, ap, ◌∙◌, ◌≢◌, ◌↔◌, ◌⊎◌, inl, inr, Bool, true, false, not, ◌&&◌, ◌||◌, Option, none,
  some, List, [], ◌∷◌, ◌++◌, map, arith, ltb, leb, ◌==◌, if◌then◌else◌, ltb→lt, lt→ltb, le→ltb,
  ==_iff, Bool-cases, Option-cases, ltb→le, IsByte, Bytes, All, All-append, length, get_elem?, take,
  drop, replicate, length-append, length-take, length-drop, length-replicate, take-length-append,
  drop-length-append, drop-add, take-length, Exception, Result, ◌>>=◌, ◌>>◌, ok, err, value_error,
  runtime_error, type_error, index_error, struct_error, key_error, recursion_error,
}
use wassupweb.Text.{Text, ascii, text_eq}
use wassupweb.Text.Number.{ℤ, pos, negsuc}
use wassupweb.Wabinary.Node.{BinaryNode, Attrs}
use wassupweb.Wabinary.Jid.{FullJid, jid_decode, are_jids_same_user}
use wassupweb.Wabinary.Query.{attrs_of, get_binary_node_child}

pub data Action : Type 0 where
  no_identity_node invalid_notification skipped_self_primary debounced : Action
  skipped_companion_device : ℤ → Action
  skipped_offline skipped_no_session session_refreshed : Action
  session_refresh_failed : Exception → Action

-- `TTLBoolCache`: expiry times.
pub record TtlBoolCache : Type 0 where
  pub ttl_ms : ℕ
  pub expiries : List (Text × ℕ)

unfoldable pub expiry_of : Text → List (Text × ℕ) → Option ℕ
expiry_of key [] = none
expiry_of key ((k, exp) ∷ table) = if text_eq k key then some exp else expiry_of key table

unfoldable pub without_key : Text → List (Text × ℕ) → List (Text × ℕ)
without_key key [] = []
without_key key ((k, exp) ∷ table) =
    if text_eq k key then without_key key table else (k, exp) ∷ without_key key table

unfoldable pub ttl_get : ℕ → Text → TtlBoolCache → Bool × TtlBoolCache
unfolding expiry_of without_key
ttl_get now key c = elim (expiry_of key c.expiries) [
  | none ↦ (false, c)
  | some exp ↦
      if leb exp now then (false, record c { expiries = without_key key c.expiries }) else (true, c)
]

unfoldable pub ttl_set : ℕ → Text → Bool → TtlBoolCache → TtlBoolCache
unfolding without_key
ttl_set now key value c = record c {
  expiries =
      if value
      then (key, now + c.ttl_ms) ∷ without_key key c.expiries
      else without_key key c.expiries;
}

-- What the handler is given: the own addresses, the session check and the refresh.
pub record Context : Type 0 where
  pub me_id : Option Text
  pub me_lid : Option Text
  pub session_exists : Text → Bool
  pub assert_sessions : Text → Result (Unit {0})

unfoldable pub attribute : Text → Attrs → Option Text
attribute key [] = none
attribute key ((k, value) ∷ attrs) = if text_eq k key then value else attribute key attrs

-- `None` and "" are false.
unfoldable pub present : Option Text → Bool
present none = false
present (some []) = false
present (some (c ∷ s)) = true

-- `decoded.get("device") or 0`
unfoldable pub device_number : Option FullJid → ℤ
device_number none = pos 0
device_number (some j) = elim j.device [ none ↦ pos 0 | some d ↦ d ]

unfoldable pub is_zero : ℤ → Bool
is_zero (pos n) = n == 0
is_zero (negsuc n) = false

-- `x and are_jids_same_user(from_jid, x)`
unfoldable pub same_as : Text → Option Text → Result Bool
same_as jid none = ok false
same_as jid (some []) = ok false
same_as jid (some (c ∷ s)) = are_jids_same_user jid (c ∷ s)

unfoldable pub is_self_primary : Context → Text → Result Bool
unfolding present same_as
is_self_primary ctx jid =
    if present ctx.me_id
    then (do first ← same_as jid ctx.me_id; if first then ok true else same_as jid ctx.me_lid)
    else ok false

unfoldable pub refreshed : Result (Unit {0}) → Action
refreshed (ok u) = session_refreshed
refreshed (err e) = session_refresh_failed e

-- Behind the debounce: the session is refreshed if there is one and the notification is not an old
-- one.
unfoldable pub refresh : Context → Text → Bool → Action
unfolding refreshed
refresh ctx jid offline =
    if not (ctx.session_exists jid)
    then skipped_no_session
    else if offline
    then skipped_offline
    else refreshed (ctx.assert_sessions jid)

unfoldable pub debounce :
    ℕ → Context → Text → Bool → Option TtlBoolCache → Action × Option TtlBoolCache
unfolding refresh ttl_get ttl_set
debounce now ctx jid offline none = (refresh ctx jid offline, none)
debounce now ctx jid offline (some c) =
    let (found, c') = ttl_get now jid c in
    if found
    then (debounced, some c')
    else (refresh ctx jid offline, some (ttl_set now jid true c'))

-- The answer, once the address is read and compared.
unfoldable pub chosen :
    ℕ → Context → Text → Bool → Option TtlBoolCache → ℤ → Bool → Action × Option TtlBoolCache
unfolding debounce is_zero
chosen now ctx jid offline cache device self =
    if not (is_zero device)
    then (skipped_companion_device device, cache)
    else if self
    then (skipped_self_primary, cache)
    else debounce now ctx jid offline cache

unfoldable pub handle_sender :
    ℕ → Context → Text → Bool → Option TtlBoolCache → Result (Action × Option TtlBoolCache)
unfolding chosen device_number is_zero is_self_primary
handle_sender now ctx jid offline cache = do
  decoded ← jid_decode jid
  let device = device_number decoded
  self ← (if is_zero device then is_self_primary ctx jid else ok false)
  ok (chosen now ctx jid offline cache device self)

unfoldable pub handle_identity_change :
    ℕ → Context → BinaryNode → Option TtlBoolCache → Result (Action × Option TtlBoolCache)
unfolding handle_sender attribute present
handle_identity_change now ctx n cache =
    let attrs = attrs_of n in
    elim (attribute (ascii "from") attrs) [
      | none ↦ ok (invalid_notification, cache)
      | some [] ↦ ok (invalid_notification, cache)
      | some (c ∷ jid) ↦ elim (get_binary_node_child (some n) (ascii "identity")) [
        | none ↦ ok (no_identity_node, cache)
        | some found ↦
            handle_sender now ctx (c ∷ jid) (present (attribute (ascii "offline") attrs)) cache
      ]
    ]

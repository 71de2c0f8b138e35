-- ===== src/Wam/Events.antt =====
-- wassupweb/wam/encode.py: events, their globals and fields.
use wassupweb.Prelude.{
  ℕ, zero, suc, ◌/◌, ◌%◌, bit_or, Bool, true, false, ◌||◌, Option, none, some, List, [], ◌∷◌, ◌++◌,
  ltb, if◌then◌else◌, Bytes, Result, ◌>>=◌, ok, err, value_error, overflow_error,
}
use wassupweb.Text.{Text, text_eq}
use wassupweb.Text.Number.{ℤ, pos, negsuc}
use wassupweb.Wam.{
  Doubles, Value, nothing, int, Raw, truth, plain, EventType, Event, BinaryInfo, flag_global,
  flag_field, flag_event, flag_extended,
}
use wassupweb.Wam.Serialize.{serialize_data}

-- `next((item for item in table if item.get("name") == key), None)`
unfoldable pub number_of : Text → List (Text × ℕ) → Option ℕ
number_of key [] = none
number_of key ((name, id) ∷ table) =
    let rest = number_of key table in if text_eq name key then some id else rest

unfoldable pub event_named : Text → List EventType → Option EventType
event_named name [] = none
event_named name (event ∷ table) =
    let rest = event_named name table in if text_eq event.name name then some event else rest

module _ {F : Type 0} where
  unfoldable pub value_of : Raw F → Value F
  value_of (truth true) = int (pos 1)
  value_of (truth false) = int (pos 0)
  value_of (plain v) = v

  unfoldable pub is_given : Raw F → Bool
  is_given (plain nothing) = false
  is_given _ = true

  -- `any(value is not None for _, value in props_entries)`
  unfoldable pub any_given : List (Text × Raw F) → Bool
  unfolding is_given
  any_given [] = false
  any_given ((key, raw) ∷ entries) = is_given raw || any_given entries

  unfoldable pub event_flag : List (Text × Raw F) → ℕ
  unfolding any_given
  event_flag entries = if any_given entries then flag_event else bit_or flag_event flag_extended

  -- The flag of a field, by the entries behind it.
  unfoldable pub field_flag : List (Text × Raw F) → ℕ
  field_flag [] = bit_or flag_field flag_extended
  field_flag (entry ∷ entries) = flag_event

-- `-weight`
unfoldable pub minus : ℕ → ℤ
minus zero = pos 0
minus (suc n) = negsuc n

module _ {F : Type 0} (d : Doubles F) (web_globals : List (Text × ℕ))
    (web_events : List EventType) where
  unfoldable pub encode_global_attributes : List (Text × Raw F) → Result Bytes
  unfolding number_of serialize_data value_of
  encode_global_attributes [] = ok []
  encode_global_attributes ((key, raw) ∷ entries) = elim (number_of key web_globals) [
    | none ↦ encode_global_attributes entries
    | some id ↦ do
      first ← serialize_data d id (value_of raw) flag_global
      rest ← encode_global_attributes entries
      ok (first ++ rest)
  ]

  -- The fields of an event; a key that the event does not have is skipped.
  unfoldable pub encode_props : List (Text × ℕ) → List (Text × Raw F) → Result Bytes
  unfolding number_of serialize_data value_of field_flag
  encode_props event_props [] = ok []
  encode_props event_props ((key, raw) ∷ entries) = elim (number_of key event_props) [
    | none ↦ encode_props event_props entries
    | some id ↦ do
      first ← serialize_data d id (value_of raw) (field_flag entries)
      rest ← encode_props event_props entries
      ok (first ++ rest)
  ]

  unfoldable pub encode_event : Event F → Result Bytes
  unfolding encode_global_attributes event_named serialize_data event_flag minus encode_props
  encode_event e = do
    globals ← encode_global_attributes e.globals
    elim (event_named e.name web_events) [
      | none ↦ ok globals
      | some event ↦ do
        start ← serialize_data d event.id (int (minus event.weight)) (event_flag e.props)
        fields ← encode_props event.props e.props
        ok (globals ++ (start ++ fields))
    ]

  unfoldable pub encode_events : List (Option (Event F)) → Result Bytes
  unfolding encode_event
  encode_events [] = ok []
  encode_events (none ∷ items) = encode_events items
  encode_events (some e ∷ items) = do
    first ← encode_event e
    rest ← encode_events items
    ok (first ++ rest)

-- A byte that is too large is a `ValueError`, a number that `to_bytes` cannot take an `OverflowError`.
unfoldable pub encode_wam_header : ℕ → ℕ → Result Bytes
encode_wam_header protocol_version sequence =
    if ltb protocol_version 256
    then if ltb sequence 65536
      then ok
          (b'W' ∷ b'A' ∷ b'M' ∷ protocol_version ∷ 1 ∷ (sequence / 256) ∷ (sequence % 256) ∷ 0 ∷ [])
      else err overflow_error
    else err (value_error "byte must be in range(0, 256)")

unfoldable pub encode_wam :
    {F : Type 0} → Doubles F → List (Text × ℕ) → List EventType → BinaryInfo F → Result Bytes
unfolding encode_wam_header encode_events
encode_wam d web_globals web_events info = do
  header ← encode_wam_header info.protocol_version info.sequence
  body ← encode_events d web_globals web_events info.events
  ok (header ++ body)

-- ===== src/Wam/Records.antt =====
-- The records of globals, events and fields, and that they are what is written.
use mathlib.Core.List.{append_assoc, append-nil}
use wassupweb.Prelude.{
  ℕ, ◌<◌, ◌≡◌, sym, inl, inr, Option, none, some, List, [], ◌∷◌, ◌++◌, arith, Bool-cases,
  Option-cases, Bytes, ok, >>=-eq-ok, ok-injective,
}
use wassupweb.Text.{Text}
use wassupweb.Wam.{Doubles, Value, int, Raw, EventType, Event, flag_global}
use wassupweb.Wam.Serialize.{serialize_data}
use wassupweb.Wam.Events.{
  any_given, number_of, event_named, value_of, event_flag, field_flag, minus,
  encode_global_attributes, encode_props, encode_event, encode_events,
}
use wassupweb.Wam.Reader.{Field, seen_of}

-- Flag, number and value.
abbrev pub Record : Type 0 → Type 0
Record F = ℕ × ℕ × Value F

module _ {F : Type 0} where
  unfoldable pub global_records : List (Text × ℕ) → List (Text × Raw F) → List (Record F)
  unfolding number_of value_of
  global_records web_globals [] = []
  global_records web_globals ((key, raw) ∷ entries) = elim (number_of key web_globals) [
    | none ↦ global_records web_globals entries
    | some id ↦ (flag_global, id, value_of raw) ∷ global_records web_globals entries
  ]

  unfoldable pub prop_records : List (Text × ℕ) → List (Text × Raw F) → List (Record F)
  unfolding number_of value_of field_flag
  prop_records props [] = []
  prop_records props ((key, raw) ∷ entries) = elim (number_of key props) [
    | none ↦ prop_records props entries
    | some id ↦ (field_flag entries, id, value_of raw) ∷ prop_records props entries
  ]

  -- The globals of an event come first, also of one that is not known.
  unfoldable pub event_records : List (Text × ℕ) → List EventType → Event F → List (Record F)
  unfolding global_records event_named event_flag minus prop_records
  event_records web_globals web_events e =
      global_records web_globals e.globals ++ elim (event_named e.name web_events) [
        | none ↦ []
        | some event ↦
            (event_flag e.props, event.id, int (minus event.weight))
            ∷ prop_records event.props e.props
      ]

  unfoldable pub records :
      List (Text × ℕ) → List EventType → List (Option (Event F)) → List (Record F)
  unfolding event_records
  records web_globals web_events [] = []
  records web_globals web_events (none ∷ items) = records web_globals web_events items
  records web_globals web_events (some e ∷ items) =
      event_records web_globals web_events e ++ records web_globals web_events items

  -- What a reader shows of records.
  abbrev pub Shows : Doubles F → List (Record F) → List (Field F) → Type 0
  Shows d [] [] = Unit
  Shows d ((flag, key, v) ∷ recs) (f ∷ fs) =
      (f.flag ≡ flag) × (f.key ≡ key) × (seen_of d v ≡ ok f.value) × Shows d recs fs
  Shows d recs fs = ⊥

  field_flag-lt : (entries : List (Text × Raw F)) → field_flag entries < 8
  unfolding field_flag
  field_flag-lt [] = omega arith
  field_flag-lt (entry ∷ entries) = omega arith

  event_flag-lt : (entries : List (Text × Raw F)) → event_flag entries < 8
  unfolding event_flag
  event_flag-lt entries = elim (Bool-cases (any_given entries)) [
    | inl e ↦ rw e (omega arith)
    | inr e ↦ rw e (omega arith)
  ]

module _ {F : Type 0} (d : Doubles F) where
  -- The bytes of records, one after another.
  pub data Writes : List (Record F) → Bytes → Type 0 where
    none_written : Writes [] []
    next :
        (flag key : ℕ) (v : Value F) (b : Bytes) (recs : List (Record F)) (rest : Bytes)
        → flag < 8
        → serialize_data d key v flag ≡ ok b
        → Writes recs rest
        → Writes ((flag, key, v) ∷ recs) (b ++ rest)

  Writes-append :
      (recs recs' : List (Record F)) (b b' : Bytes)
      → Writes recs b
      → Writes recs' b'
      → Writes (recs ++ recs') (b ++ b')
  Writes-append recs recs' b b' none_written h = h
  Writes-append recs recs' b b' (next flag key v first rs rest small e hs) h = rw append_assoc (
      next flag key v first (rs ++ recs') (rest ++ b') small e
        (Writes-append rs recs' rest b' hs h))

module _ {F : Type 0} (d : Doubles F) (web_globals : List (Text × ℕ))
    (web_events : List EventType) where
  globals-Writes :
      (entries : List (Text × Raw F)) (b : Bytes)
      → encode_global_attributes d web_globals web_events entries ≡ ok b
      → Writes d (global_records web_globals entries) b
  unfolding encode_global_attributes global_records
  globals-Writes [] b h = rw (sym (ok-injective h)) none_written
  globals-Writes ((key, raw) ∷ entries) b h = elim (Option-cases (number_of key web_globals)) [
    | inl e ↦
        rw (global_records, e) (globals-Writes entries b (rw (encode_global_attributes, e) at h))
    | inr (id, e) ↦
        let (first, wrote, h1) =
          >>=-eq-ok (serialize_data d id (value_of raw) flag_global) _
            (rw (encode_global_attributes, e) at h) in
        let (rest, wrote_rest, h2) =
          >>=-eq-ok (encode_global_attributes d web_globals web_events entries) _ h1 in
        rw (global_records, e)
          (rw (sym (ok-injective h2)) (
            next flag_global id (value_of raw) first _ rest (omega arith) wrote
              (globals-Writes entries rest wrote_rest)))
  ]

  props-Writes :
      (props : List (Text × ℕ)) (entries : List (Text × Raw F)) (b : Bytes)
      → encode_props d web_globals web_events props entries ≡ ok b
      → Writes d (prop_records props entries) b
  unfolding encode_props prop_records
  props-Writes props [] b h = rw (sym (ok-injective h)) none_written
  props-Writes props ((key, raw) ∷ entries) b h = elim (Option-cases (number_of key props)) [
    | inl e ↦ rw (prop_records, e) (props-Writes props entries b (rw (encode_props, e) at h))
    | inr (id, e) ↦
        let (first, wrote, h1) =
          >>=-eq-ok (serialize_data d id (value_of raw) (field_flag entries)) _
            (rw (encode_props, e) at h) in
        let (rest, wrote_rest, h2) =
          >>=-eq-ok (encode_props d web_globals web_events props entries) _ h1 in
        rw (prop_records, e)
          (rw (sym (ok-injective h2)) (
            next (field_flag entries) id (value_of raw) first _ rest (field_flag-lt entries) wrote
              (props-Writes props entries rest wrote_rest)))
  ]

  event-Writes :
      (e : Event F) (b : Bytes)
      → encode_event d web_globals web_events e ≡ ok b
      → Writes d (event_records web_globals web_events e) b
  unfolding encode_event event_records
  event-Writes e b h =
      let (globals, wrote, h1) =
        >>=-eq-ok (encode_global_attributes d web_globals web_events e.globals) _ h in
      elim (Option-cases (event_named e.name web_events)) [
        | inl unknown ↦
            let same : ok globals ≡ ok b = rw unknown at h1 in
            rw (event_records, unknown)
              (rw (append-nil (global_records web_globals e.globals), sym (ok-injective same))
                (globals-Writes e.globals globals wrote))
        | inr (event, known) ↦
            let (start, wrote_start, h2) =
              >>=-eq-ok (serialize_data d event.id (int (minus event.weight)) (event_flag e.props))
                _ (rw known at h1) in
            let (fields, wrote_fields, h3) =
              >>=-eq-ok (encode_props d web_globals web_events event.props e.props) _ h2 in
            rw (event_records, known)
              (rw (sym (ok-injective h3)) (
                Writes-append d (global_records web_globals e.globals) _ globals (start ++ fields)
                  (globals-Writes e.globals globals wrote)
                  (next (event_flag e.props) event.id (int (minus event.weight)) start _ fields
                    (event_flag-lt e.props) wrote_start
                    (props-Writes event.props e.props fields wrote_fields))))
      ]

  pub events-Writes :
      (items : List (Option (Event F))) (b : Bytes)
      → encode_events d web_globals web_events items ≡ ok b
      → Writes d (records web_globals web_events items) b
  unfolding encode_events records
  events-Writes [] b h = rw (sym (ok-injective h)) none_written
  events-Writes (none ∷ items) b h = events-Writes items b h
  events-Writes (some e ∷ items) b h =
      let (first, wrote, h1) = >>=-eq-ok (encode_event d web_globals web_events e) _ h in
      let (rest, wrote_rest, h2) = >>=-eq-ok (encode_events d web_globals web_events items) _ h1 in
      rw (sym (ok-injective h2)) (
        Writes-append d (event_records web_globals web_events e) _ first rest
          (event-Writes e first wrote) (events-Writes items rest wrote_rest))

-- ===== src/Tests/Analytics.antt =====
-- A buffer of analytics events.
use wassupweb.Prelude.{
  ℕ, ◌≡◌, refl, Bool, true, false, none, some, List, [], ◌∷◌, ◌==◌, if◌then◌else◌, Bytes, length,
  replicate, ok,
}
use wassupweb.Text.{Text, ascii, text_eq}
use wassupweb.Text.Number.{pos}
use wassupweb.Wam.{Doubles, int, text, truth, plain, EventType, BinaryInfo}
use wassupweb.Wam.Serialize.{
  serialize_data, serialize_int, serialize_text, with_header, serialize_header, pack_u16, bit_of,
  within, unsigned,
}
use wassupweb.Wam.Events.{
  encode_wam, encode_events, encode_event, encode_global_attributes, encode_props, number_of,
  event_named, value_of, event_flag, any_given, is_given, field_flag, minus, encode_wam_header,
}
use wassupweb.Wam.Reader.{Field, read_wam}
use wassupweb.Wam.Records.{records, Shows}
use wassupweb.Wam.FieldTrip.{AreDoubles}
use wassupweb.Wam.Stream.{read_wam-encode_wam}

-- Two values of `float` and their bytes.
abbrev two : Doubles Bool
two = record { of_int = λ z. ok true; pack_double = λ x. (if x then 1 else 0) ∷ replicate 7 0 }

abbrev unpack_two : Bytes → Bool
unpack_two [] = false
unpack_two (b ∷ s) = b == 1

two-AreDoubles : AreDoubles two unpack_two
two-AreDoubles = record { size = eight; back = same }
  where
    eight : (x : Bool) → length (two.pack_double x) ≡ 8
    eight true = refl
    eight false = refl

    same : (x : Bool) → unpack_two (two.pack_double x) ≡ x
    same true = refl
    same false = refl

abbrev globals_table : List (Text × ℕ)
globals_table = (ascii "abKey2", 4473) ∷ []

abbrev events_table : List EventType
events_table =
    record { name = ascii "call"; id = 462; weight = 1; props = (ascii "muted", 3) ∷ [] } ∷ []

abbrev info : BinaryInfo Bool
info = record {
  protocol_version = 5;
  sequence = 258;
  events =
      none
      ∷ some (record {
        name = ascii "call";
        globals = (ascii "abKey2", plain (text (ascii "x"))) ∷ [];
        props = (ascii "muted", truth true) ∷ (ascii "other", plain (int (pos 7))) ∷ [];
      })
      ∷ [];
}

abbrev buffer : Bytes
buffer =
    b'W' ∷ b'A' ∷ b'M' ∷ 5 ∷ 1 ∷ 1 ∷ 2 ∷ 0 ∷ 136 ∷ 121 ∷ 17 ∷ 1 ∷ b'x' ∷ 57 ∷ 206 ∷ 1 ∷ 255 ∷ 33 ∷ 3
    ∷ []

buffer_lem : encode_wam two globals_table events_table info ≡ ok buffer
unfolding encode_wam encode_events encode_event encode_global_attributes encode_props number_of
    event_named value_of event_flag any_given is_given field_flag minus serialize_data serialize_int
    serialize_text with_header serialize_header pack_u16 bit_of within unsigned text_eq
    encode_wam_header
buffer_lem = refl

read_wam-encode_wam_example :
    (fields : List (Field Bool)) × Shows two (records globals_table events_table info.events) fields
    × (read_wam unpack_two buffer ≡ ok (5, 258, fields))
read_wam-encode_wam_example =
    read_wam-encode_wam two unpack_two two-AreDoubles globals_table events_table info buffer
      buffer_lem

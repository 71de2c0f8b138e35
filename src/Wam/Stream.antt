-- ===== src/Wam/Stream.antt =====
-- A whole buffer is read as the records of its globals, events and fields.
use wassupweb.Wam.FieldTrip.{AreDoubles, serialize_data-back}
use wassupweb.Prelude.{
  ℕ, zero, suc, ◌+◌, ◌*◌, ◌/◌, ◌%◌, ◌≤◌, ◌<◌, ◌≡◌, refl, sym, ◌∙◌, List, [], ◌∷◌, ◌++◌, arith,
  Bytes, length, length-append, ◌>>=◌, ok, >>=-eq-ok, ok-injective,
}
use wassupweb.Text.{Text}
use wassupweb.Wam.{Doubles, EventType, BinaryInfo}
use wassupweb.Wam.Records.{Record, records, Shows, Writes, none_written, next, events-Writes}
use wassupweb.Wabinary.Decode.Reader.{read_byte}
use wassupweb.Wam.Events.{encode_wam_header, encode_wam, encode_events, encode_events}
use wassupweb.Wam.Reader.{read_fields, read_field, read_header, read_wam, Field}

module _ {F : Type 0} (d : Doubles F) (unpack_double : Bytes → F)
    (laws : AreDoubles d unpack_double) where
  read_fields-cons :
      (fuel : ℕ) (b rest : Bytes) (f : Field F)
      → 1 ≤ length b
      → read_field unpack_double (b ++ rest) ≡ ok (f, rest)
      → read_fields unpack_double (suc fuel) (b ++ rest)
        ≡ (read_fields unpack_double fuel rest >>= λ fs. ok (f ∷ fs))
  unfolding read_fields
  read_fields-cons fuel [] rest f some_byte h = absurd (omega arith)
  read_fields-cons fuel (x ∷ b) rest f some_byte h = rw h

  -- What can be read has a byte.
  some_byte :
      (b : Bytes) (f : Field F) → read_field unpack_double (b ++ []) ≡ ok (f, []) → 1 ≤ length b
  unfolding read_field read_header read_byte
  some_byte [] f h = absurd (cc)
  some_byte (x ∷ b) f h = omega arith

  read_fields-Writes :
      (recs : List (Record F)) (b : Bytes) (fuel : ℕ)
      → Writes d recs b
      → length b ≤ fuel
      → (fields : List (Field F)) × Shows d recs fields
        × (read_fields unpack_double fuel b ≡ ok fields)
  unfolding read_fields
  read_fields-Writes recs b fuel none_written le = ([], tt, refl)
  read_fields-Writes recs b zero (next flag key v first rs rest small e hs) le =
      let (seen, shows, back) = serialize_data-back d unpack_double laws flag small key v first e in
      absurd (omega (arith, length-append first rest, some_byte first _ (back [])))
  read_fields-Writes recs b (suc fuel) (next flag key v first rs rest small e hs) le =
      let (seen, shows, back) = serialize_data-back d unpack_double laws flag small key v first e in
      let long : 1 ≤ length first = some_byte first _ (back []) in
      let (fields, shown, read) =
        read_fields-Writes rs rest fuel hs (omega (arith, length-append first rest)) in
      (
        record { flag = flag; key = key; value = seen } ∷ fields,
        (refl, refl, shows, shown),
        read_fields-cons fuel first rest _ long (back rest) ∙ rw read,
      )

  read_wam-header :
      (version sequence : ℕ) (header s : Bytes)
      → encode_wam_header version sequence ≡ ok header
      → read_wam unpack_double (header ++ s)
        ≡ (read_fields unpack_double (length s) s >>= λ fields. ok (version, sequence, fields))
  unfolding encode_wam_header read_wam
  read_wam-header version sequence header s h =
      let (small, narrow, e) = header_parts h in
      let whole : 256 * (sequence / 256) + sequence % 256 ≡ sequence = omega arith in
      rw e (rw whole)
    where
      header_parts :
          encode_wam_header version sequence ≡ ok header
          → (version < 256)
            × (sequence < 65536)
            × (header
                ≡ b'W' ∷ b'A' ∷ b'M' ∷ version ∷ 1 ∷ (sequence / 256) ∷ (sequence % 256) ∷ 0 ∷ [])
      header_parts h = ground arith

  -- Where floats are read as they were written: whatever buffer `encode_wam` returns is read whole, with
  -- the version and the sequence number, as the records of the globals, the known events and their
  -- known fields in their order; a whole number of more than 32 bits comes back as a `float`.
  pub read_wam-encode_wam :
      (web_globals : List (Text × ℕ)) (web_events : List EventType) (info : BinaryInfo F)
      (b : Bytes)
      → encode_wam d web_globals web_events info ≡ ok b
      → (fields : List (Field F)) × Shows d (records web_globals web_events info.events) fields
        × (read_wam unpack_double b ≡ ok (info.protocol_version, info.sequence, fields))
  unfolding encode_wam
  read_wam-encode_wam web_globals web_events info b h =
      let (header, wrote, h1) =
        >>=-eq-ok (encode_wam_header info.protocol_version info.sequence) _ h in
      let (body, wrote_body, h2) =
        >>=-eq-ok (encode_events d web_globals web_events info.events) _ h1 in
      let (fields, shown, read) =
        read_fields-Writes _ body (length body)
          (events-Writes d web_globals web_events info.events body wrote_body) (omega arith) in
      (
        fields,
        shown,
        rw (sym (ok-injective h2))
            (read_wam-header info.protocol_version info.sequence header body wrote ∙ rw read),
      )

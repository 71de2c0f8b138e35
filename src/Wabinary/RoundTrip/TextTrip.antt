-- ===== src/Wabinary/RoundTrip/TextTrip.antt =====
-- `read_string` gives back what `write_string` wrote.
mod Forms
use mathlib.Core.List.{append_assoc}
use wassupweb.Prelude.{
  ℕ, zero, suc, ◌+◌, ◌-◌, ◌*◌, ◌/◌, ◌%◌, ◌^◌, ◌≤◌, ◌<◌, min, max, bit_and, bit_or, String, ◌≡◌,
  refl, sym, ap, ◌∙◌, ◌≢◌, ◌↔◌, ◌⊎◌, inl, inr, Bool, true, false, not, ◌&&◌, ◌||◌, Option, none,
  some, List, [], ◌∷◌, ◌++◌, map, arith, ltb, leb, ◌==◌, if◌then◌else◌, ltb→lt, lt→ltb, le→ltb,
  ==_iff, Bool-cases, Option-cases, ltb→le, IsByte, Bytes, All, All-append, length, get_elem?, take,
  drop, replicate, length-append, length-take, length-drop, length-replicate, take-length-append,
  drop-length-append, drop-add, take-length, Exception, Result, ◌>>=◌, ◌>>◌, ok, err, value_error,
  runtime_error, type_error, index_error, struct_error, key_error, recursion_error,
}
use wassupweb.Text.{Text, contains, split_at, split_at_absent, is_utf8}
use wassupweb.Text.Number.{ℤ, pos, decimal, str_int}
use wassupweb.Wabinary.Tag
use wassupweb.Wabinary.Node.{Token, single, double, Tables}
use wassupweb.Wabinary.Jid.{FullJid, jid_decode, jid_encode, device_part}
use wassupweb.Wabinary.Jid.Parts.{jid_decode_absent}
use wassupweb.Wabinary.Encode.Write.{
  write_byte_length, write_string_raw, write_token, is_nibble, is_hex, write_user, write_jid,
  write_address, write_untabled, write_known, write_step, write_text, low_byte,
}
use wassupweb.Wabinary.Encode.Fuel.{write_text_step}
use wassupweb.Wabinary.Decode.Reader.{
  Read, read_byte, read_tagged, read_step, read_string, read_text, read_next, read_jid_pair,
  read_ad_jid, ad_server,
}
use wassupweb.Wabinary.RoundTrip.Sizes.{
  SizeForm, in_byte, in_20_bits, in_32_bits, write_byte_length-SizeForm,
}
use wassupweb.Wabinary.RoundTrip.Address.{
  IsPlain, jid_decode-plain, jid_decode-device, contains-append,
}
use wassupweb.Wabinary.RoundTrip.Shape.{
  is_raw, Shape, tagged, sized, text_tag, is_raw-token, is_raw-untabled, append-ne-nil,
  packed-Shape, address-Shape,
}
use wassupweb.Wabinary.RoundTrip.Canonical.{
  IsTable, Canonical, empty, token, nibble, hex, raw, pair, device, not_packed,
}
use Forms.{read_from, step_tagged, step_token, step_raw, step_empty, nibble_trip, hex_trip}

module _ (t : Tables) (table : IsTable t) where
  -- `bytes` are what is written for `v`, and they are read as `v`, whatever follows.
  abbrev Reads : Bytes → Text → Type 0
  Reads bytes v =
      (fuel : ℕ) (s : Bytes) → length bytes ≤ fuel → read_from t fuel (bytes ++ s) ≡ ok (v, s)

  abbrev Trip : Text → Type 0
  Trip v = (bytes : Bytes) × (write_text t v ≡ ok bytes) × Reads bytes v × Shape t v bytes

  from_step :
      (fuel : ℕ) (r : Bytes)
      → read_from t (suc fuel) r ≡ (read_byte r >>= λ b. read_step t (read_from t fuel) b.0 b.1)
  unfolding read_from read_string
  from_step fuel r = refl

  -- It is enough to look at one step of the reader.
  Reads-step :
      (bytes v : Bytes)
      → 1 ≤ length bytes
      → ((fuel : ℕ) (s : Bytes)
          → length bytes ≤ suc fuel
          → (read_byte (bytes ++ s) >>= λ r. read_step t (read_from t fuel) r.0 r.1) ≡ ok (v, s))
      → Reads bytes v
  Reads-step bytes v some_byte h zero s le = absurd (omega arith)
  Reads-step bytes v some_byte h (suc fuel) s le = from_step fuel (bytes ++ s) ∙ h fuel s le

  step_known :
      (w : Text → Result Bytes) (c : ℕ) (v : Text) (k : Token)
      → t.token_map (c ∷ v) ≡ some k
      → write_step t w (c ∷ v) ≡ ok (write_token k)
  unfolding write_step write_known
  step_known w c v k e = rw e

  step_unknown :
      (w : Text → Result Bytes) (v : Text)
      → v ≢ []
      → t.token_map v ≡ none
      → write_step t w v ≡ write_untabled w v
  unfolding write_step write_known
  step_unknown w [] h e = absurd (h refl)
  step_unknown w (c ∷ v) h e = rw e

  untabled_plain :
      (w : Text → Result Bytes) (v : Text) (o : Option FullJid)
      → is_nibble v ≡ false
      → is_hex v ≡ false
      → jid_decode v ≡ ok o
      → write_untabled w v ≡ write_address w v o
  unfolding write_untabled
  untabled_plain w v o e1 e2 e3 = rw (e1, e2, e3)

  SizeForm-pos : {n : ℕ} (size : Bytes) → SizeForm n size → 1 ≤ length size
  SizeForm-pos size (in_byte h) = omega arith
  SizeForm-pos size (in_20_bits lo h) = omega arith
  SizeForm-pos size (in_32_bits lo h) = omega arith

  token_pos : (k : Token) → 1 ≤ length (write_token k)
  unfolding write_token
  token_pos (single i) = omega arith
  token_pos (double d i) = omega arith

  raw_trip :
      (v : Text)
      → is_utf8 v ≡ true
      → length v < 4294967296
      → (size : Bytes) × (write_string_raw v ≡ ok (size ++ v))
        × Reads (size ++ v) v
        × SizeForm (length v) size
  unfolding write_string_raw
  raw_trip v utf8 h =
      let (size, e, form) = write_byte_length-SizeForm (length v) h in
      (
        size,
        rw e,
        Reads-step (size ++ v) v (omega (arith, length-append size v, SizeForm-pos size form))
            (λ fuel s le. step_raw t table (read_from t fuel) v size s form utf8),
        form,
      )

  token-Shape :
      (c : ℕ) (v : Text) (k : Token)
      → t.token_map (c ∷ v) ≡ some k
      → Shape t (c ∷ v) (write_token k)
  unfolding write_token
  token-Shape c v (single i) e =
      let (lo, hi, found) = table.single_found c v i e in
      tagged _ _ (is_raw-token t c v (single i) e)
        (text_tag _ (λ z. omega (arith, table.small)) (inl (omega (arith, table.small))))
  token-Shape c v (double d i) e =
      let (dictionary, hd, hi, outer, inner) = table.double_found c v d i e in
      tagged _ _ (is_raw-token t c v (double d i) e)
        (text_tag _ (λ z. omega arith) (inl (omega arith)))

  token-Trip : (c : ℕ) (v : Text) (k : Token) → t.token_map (c ∷ v) ≡ some k → Trip (c ∷ v)
  token-Trip c v k e = (
    write_token k,
    write_text_step t (c ∷ v) ∙ step_known (write_text t) c v k e,
    Reads-step (write_token k) (c ∷ v) (token_pos k)
        (λ fuel s le. step_token t table (read_from t fuel) c v k s e),
    token-Shape c v k e,
  )

  nibble_case :
      (c : ℕ) (v : Text) → t.token_map (c ∷ v) ≡ none → is_nibble (c ∷ v) ≡ true → Trip (c ∷ v)
  unfolding write_untabled read_byte read_tagged
  nibble_case c v unknown h =
      let (rounded, pairs, wrote, back) = nibble_trip (c ∷ v) h in
      (
        Tag.nibble_8 ∷ rounded ∷ pairs,
        write_text_step t (c ∷ v)
            ∙ step_unknown (write_text t) (c ∷ v) (λ e. cc) unknown
            ∙ rw (h, write_untabled) wrote,
        Reads-step (Tag.nibble_8 ∷ rounded ∷ pairs) (c ∷ v) (omega arith) (λ fuel s le.
            step_tagged t table (read_from t fuel) 255 _ (inr (omega arith)) ∙ back s),
        packed-Shape t c v 255 _ (inr refl) unknown (rw h),
      )

  hex_case :
      (c : ℕ) (v : Text)
      → t.token_map (c ∷ v) ≡ none
      → is_nibble (c ∷ v) ≡ false
      → is_hex (c ∷ v) ≡ true
      → Trip (c ∷ v)
  unfolding write_untabled read_byte read_tagged
  hex_case c v unknown no_nibble h =
      let (rounded, pairs, wrote, back) = hex_trip (c ∷ v) h in
      (
        Tag.hex_8 ∷ rounded ∷ pairs,
        write_text_step t (c ∷ v)
            ∙ step_unknown (write_text t) (c ∷ v) (λ e. cc) unknown
            ∙ rw (no_nibble, h, write_untabled) wrote,
        Reads-step (Tag.hex_8 ∷ rounded ∷ pairs) (c ∷ v) (omega arith) (λ fuel s le.
            step_tagged t table (read_from t fuel) 251 _ (inr (omega arith)) ∙ back s),
        packed-Shape t c v 251 _ (inl refl) unknown (rw (no_nibble, h)),
      )

  raw_case :
      (c : ℕ) (v : Text)
      → t.token_map (c ∷ v) ≡ none
      → is_nibble (c ∷ v) ≡ false
      → is_hex (c ∷ v) ≡ false
      → contains b'@' (c ∷ v) ≡ false
      → is_utf8 (c ∷ v) ≡ true
      → length (c ∷ v) < 4294967296
      → Trip (c ∷ v)
  raw_case c v unknown no_nibble no_hex no_at utf8 h =
      let (size, wrote, back, form) = raw_trip (c ∷ v) utf8 h in
      (
        size ++ (c ∷ v),
        write_text_step t (c ∷ v)
            ∙ step_unknown (write_text t) (c ∷ v) (λ e. cc) unknown
            ∙ untabled_plain (write_text t) (c ∷ v) none no_nibble no_hex
                (jid_decode_absent (c ∷ v) (split_at_absent b'@' (c ∷ v) no_at))
            ∙ (unfold write_address in wrote),
        back,
        sized size (is_raw-untabled t (c ∷ v) (λ e. cc) unknown ∙ rw (no_nibble, no_hex, no_at))
            form,
      )

  -- A user part is written as an empty list if it is empty.
  user-Trip :
      (u : Text)
      → Trip u
      → (bytes : Bytes) × (write_user (write_text t) u ≡ ok bytes) × Reads bytes u
  unfolding write_user read_byte read_tagged
  user-Trip [] trip = (
    0 ∷ [],
    refl,
    Reads-step (0 ∷ []) ([]) (omega arith)
        (λ fuel s le. step_tagged t table (read_from t fuel) 0 s (inl refl)),
  )
  user-Trip (c ∷ u) (bytes, wrote, back, shape) = (bytes, wrote, back)

  pair_case :
      (u : Text) (c : ℕ) (server : Text)
      → t.token_map (u ++ (b'@' ∷ c ∷ server)) ≡ none
      → IsPlain u
      → Trip u
      → Trip (c ∷ server)
      → Trip (u ++ (b'@' ∷ c ∷ server))
  unfolding write_address write_jid read_byte read_tagged read_jid_pair
  pair_case u c server unknown plain trip_u (sb, wrote_s, back_s, shape) =
      let v : Text = u ++ (b'@' ∷ c ∷ server) in
      let (ub, wrote_u, back_u) = user-Trip u trip_u in
      let (no_nibble, no_hex) = not_packed v u (c ∷ server) refl in
      let (d, decoded) = jid_decode-plain u (c ∷ server) plain in
      (
        Tag.jid_pair ∷ (ub ++ sb),
        write_text_step t v
            ∙ step_unknown (write_text t) v (append-ne-nil u _ _) unknown
            ∙ untabled_plain (write_text t) v _ no_nibble no_hex decoded
            ∙ rw (wrote_u, wrote_s),
        Reads-step (Tag.jid_pair ∷ (ub ++ sb)) (u ++ (b'@' ∷ c ∷ server)) (omega arith)
            (λ fuel s le.
              step_tagged t table (read_from t fuel) 250 _ (inr (omega arith))
              ∙ rw append_assoc (
                  rw (
                    back_u fuel (sb ++ s) (omega (arith, length-append ub sb)),
                    back_s fuel s (omega (arith, length-append ub sb)),
                  ))),
        address-Shape t u (c ∷ server) 250 _ (inr refl) (λ e. omega arith) unknown,
      )

  device_part-pos : (n : ℕ) → 0 < n → device_part (some (pos n)) ≡ b':' ∷ decimal n
  unfolding device_part str_int
  device_part-pos zero h = absurd (omega arith)
  device_part-pos (suc n) h = refl

  encode_device :
      (u server : Text) (n : ℕ)
      → 0 < n
      → jid_encode u server (some (pos n)) none ≡ (u ++ (b':' ∷ decimal n)) ++ (b'@' ∷ server)
  unfolding jid_encode
  encode_device u server n h =
      rw (device_part-pos n h) (sym (append_assoc u (b':' ∷ decimal n) (b'@' ∷ server)))

  device_case :
      (u : Text) (n domain : ℕ)
      → t.token_map ((u ++ (b':' ∷ decimal n)) ++ (b'@' ∷ ad_server domain)) ≡ none
      → 0 < n
      → n < 256
      → IsPlain u
      → Trip u
      → Trip ((u ++ (b':' ∷ decimal n)) ++ (b'@' ∷ ad_server domain))
  unfolding write_address write_jid read_byte read_tagged read_ad_jid low_byte
  device_case u n domain unknown lo hi plain (ub, wrote_u, back_u, shape) =
      let v : Text = (u ++ (b':' ∷ decimal n)) ++ (b'@' ∷ ad_server domain) in
      let (no_nibble, no_hex) = not_packed v (u ++ (b':' ∷ decimal n)) (ad_server domain) refl in
      let (d, small, same, decoded) = jid_decode-device u n domain plain in
      let device_byte : n % 256 ≡ n = omega arith in
      let domain_byte : d % 256 ≡ d = omega arith in
      (
        Tag.ad_jid ∷ d ∷ n ∷ ub,
        write_text_step t v
            ∙ step_unknown (write_text t) v
                (append-ne-nil (u ++ (b':' ∷ decimal n)) b'@' (ad_server domain)) unknown
            ∙ untabled_plain (write_text t) v _ no_nibble no_hex decoded
            ∙ rw (wrote_u, device_byte, domain_byte),
        Reads-step (Tag.ad_jid ∷ d ∷ n ∷ ub) v (omega arith) (λ fuel s le.
            step_tagged t table (read_from t fuel) 247 (d ∷ n ∷ (ub ++ s)) (inr (omega arith))
            ∙ rw (back_u fuel s (omega arith), same)
                (ap (λ (r : Text). ok (r, s)) (encode_device u (ad_server domain) n lo))),
        address-Shape t (u ++ (b':' ∷ decimal n)) (ad_server domain) 247 _ (inl (omega arith))
            (λ e. omega arith) unknown,
      )

  trip : (v : Text) → Canonical t v → Trip v
  trip v empty = (
    252 ∷ 0 ∷ [],
    write_text_step t [] ∙ (unfold write_step write_string_raw write_byte_length in refl),
    Reads-step (252 ∷ 0 ∷ []) [] (omega arith)
        (λ fuel s le. step_empty t table (read_from t fuel) s),
    sized (252 ∷ 0 ∷ []) (unfold is_raw in refl) (in_byte (omega arith)),
  )
  trip v (token c w k e) = token-Trip c w k e
  trip v (nibble c w unknown h) = nibble_case c w unknown h
  trip v (hex c w unknown no_nibble h) = hex_case c w unknown no_nibble h
  trip v (raw c w unknown no_nibble no_hex no_at utf8 h) =
      raw_case c w unknown no_nibble no_hex no_at utf8 h
  trip v (pair w u c server e unknown plain hu hs) =
      rw e (pair_case u c server (rw e at unknown) plain (trip u hu) (trip (c ∷ server) hs))
  trip v (device w u n domain e unknown lo hi plain hu) =
      rw e (device_case u n domain (rw e at unknown) lo hi plain (trip u hu))

  next_lem : (r : Bytes) → read_next t r ≡ read_from t (length r) r
  unfolding read_next read_from read_byte read_text
  next_lem [] = refl
  next_lem (b ∷ r) = refl

  -- The same with the form of the bytes.
  pub text_trip :
      (v : Text)
      → Canonical t v
      → (bytes : Bytes) × (write_text t v ≡ ok bytes)
        × ((s : Bytes) → read_next t (bytes ++ s) ≡ ok (v, s))
        × Shape t v bytes
  unfolding read_next
  text_trip v h =
      let (bytes, wrote, back, shape) = trip v h in
      (
        bytes,
        wrote,
        λ s.
            next_lem (bytes ++ s)
            ∙ back (length (bytes ++ s)) s (omega (arith, length-append bytes s)),
        shape,
      )

  -- Where the token tables agree on every text but the empty one, as the program's do: a canonical text
  -- is written, and `read_string` on the next byte gives back the same text and leaves whatever
  -- follows it.
  pub read_next-write_text :
      (v : Text)
      → Canonical t v
      → (bytes : Bytes) × (write_text t v ≡ ok bytes)
        × ((s : Bytes) → read_next t (bytes ++ s) ≡ ok (v, s))
  read_next-write_text v h = let (bytes, wrote, back, shape) = text_trip v h in (bytes, wrote, back)

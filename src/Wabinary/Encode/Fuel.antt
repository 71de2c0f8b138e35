-- ===== src/Wabinary/Encode/Fuel.antt =====
-- The recursion of `write_string` ends: the fuel of `write_text` is enough, and more changes nothing.
use wassupweb.Prelude.{
  ℕ, zero, suc, ◌<◌, ◌≡◌, refl, inl, inr, Option, none, some, [], ◌∷◌, arith, Bool-cases,
  Option-cases, Bytes, length, Result, ◌>>=◌, Result-cases, ok,
}
use wassupweb.Text.{Text}
use wassupweb.Wabinary.Node.{Token, Tables}
use wassupweb.Wabinary.Jid.{FullJid, jid_decode}
use wassupweb.Wabinary.Jid.Parts.{jid_decode-shorter}
use wassupweb.Wabinary.Encode.Write.{
  is_nibble, is_hex, write_user, write_jid, write_address, write_untabled, write_known, write_step,
  write_string, write_text,
}

-- Two writers agree on the texts shorter than `value`.
abbrev Agree : (Text → Result Bytes) → (Text → Result Bytes) → Text → Type 0
Agree w w' value = (u : Text) → length u < length value → w u ≡ w' u

write_user-Agree :
    (w w' : Text → Result Bytes) (u : Text) → w u ≡ w' u → write_user w u ≡ write_user w' u
unfolding write_user
write_user-Agree w w' [] h = refl
write_user-Agree w w' (c ∷ u) h = h

write_jid-Agree :
    (w w' : Text → Result Bytes) (j : FullJid)
    → w j.user ≡ w' j.user
    → w j.server ≡ w' j.server
    → write_jid w j ≡ write_jid w' j
unfolding write_jid
write_jid-Agree w w' j hu hs = elim (Option-cases j.device) [
  | inl absent ↦ rw (absent, write_jid) (rw (write_user-Agree w w' j.user hu, hs))
  | inr (d, here) ↦ rw (here, write_jid) (rw hu)
]

write_address-Agree :
    (w w' : Text → Result Bytes) (value : Text) (o : Option FullJid)
    → Agree w w' value
    → jid_decode value ≡ ok o
    → write_address w value o ≡ write_address w' value o
unfolding write_address
write_address-Agree w w' value none h e = refl
write_address-Agree w w' value (some j) h e =
    let (user, server) = jid_decode-shorter value j e in
    write_jid-Agree w w' j (h j.user user) (h j.server server)

write_untabled-Agree :
    (w w' : Text → Result Bytes) (value : Text)
    → Agree w w' value
    → write_untabled w value ≡ write_untabled w' value
unfolding write_untabled
write_untabled-Agree w w' value h = elim (Bool-cases (is_nibble value)) [
  | inl nibble ↦ rw nibble
  | inr other ↦
      rw other
        (elim (Bool-cases (is_hex value)) [ inl hex ↦ rw hex | inr plain ↦ rw plain address ])
]
  where
    address :
        (jid_decode value >>= λ decoded. write_address w value decoded)
        ≡ (jid_decode value >>= λ decoded. write_address w' value decoded)
    address = elim (Result-cases (jid_decode value)) [
      | inl (o, e) ↦ rw e (write_address-Agree w w' value o h e)
      | inr (x, e) ↦ rw e
    ]

write_step-Agree :
    (t : Tables) (w w' : Text → Result Bytes) (value : Text)
    → Agree w w' value
    → write_step t w value ≡ write_step t w' value
unfolding write_step write_known
write_step-Agree t w w' [] h = refl
write_step-Agree t w w' (c ∷ s) h = go (t.token_map (c ∷ s))
  where
    go : (o : Option Token) → write_known w (c ∷ s) o ≡ write_known w' (c ∷ s) o
    go none = write_untabled-Agree w w' (c ∷ s) h
    go (some token) = refl

-- Any two amounts of fuel above the length of the text give the same result.
pub write_string_fuel :
    (t : Tables) (f g : ℕ) (value : Text)
    → length value < f
    → length value < g
    → write_string t f value ≡ write_string t g value
unfolding write_string
write_string_fuel t zero g value hf hg = absurd (omega arith)
write_string_fuel t (suc f) zero value hf hg = absurd (omega arith)
write_string_fuel t (suc f) (suc g) value hf hg =
    write_step-Agree t (write_string t f) (write_string t g) value
      (λ u lt. write_string_fuel t f g u (omega arith) (omega arith))

-- The source's equation: `write_string` calls itself on the parts of an address.
pub write_text_step :
    (t : Tables) (value : Text) → write_text t value ≡ write_step t (write_text t) value
unfolding write_text write_string
write_text_step t value =
    write_step-Agree t (write_string t (length value)) (write_text t) value
      (λ u lt. write_string_fuel t (length value) (suc (length u)) u lt (omega arith))

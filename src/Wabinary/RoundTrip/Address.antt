-- ===== src/Wabinary/RoundTrip/Address.antt =====
-- How `jid_decode` reads the addresses that the encoder keeps.
use wassupweb.Prelude.{
  ℕ, ◌<◌, ◌≡◌, refl, sym, ap, ◌∙◌, inl, inr, false, ◌||◌, Option, none, some, [], ◌∷◌, ◌++◌, arith,
  ◌==◌, Bool-cases, Bytes, All, ◌>>=◌, ok,
}
use wassupweb.Text.{ascii, Text, text_eq, contains, split_at, split_at_absent, split_at_found}
use wassupweb.Text.Number.{ℤ, pos, decimal, py_int}
use wassupweb.Text.Number.RoundTrip.{IsDigit, decimal-IsDigit, decimal_cons, py_int-decimal}
use wassupweb.Wabinary.Jid.{
  whatsapp, lid_domain, hosted_domain, hosted_lid_domain, first_piece, device_of, domain_of,
  agent_domain, decode_parts, jid_decode,
}
use wassupweb.Wabinary.Jid.Parts.{jid_decode_found}
use wassupweb.Wabinary.Decode.Reader.{ad_server}

-- A user part with no separator in it.
pub record IsPlain (u : Text) : Type 0 where
  pub no_at : contains b'@' u ≡ false
  pub no_colon : contains b':' u ≡ false
  pub no_underscore : contains b'_' u ≡ false

pub contains-append : (c : ℕ) (s t : Text) → contains c (s ++ t) ≡ (contains c s || contains c t)
unfolding contains
contains-append c [] t = refl
contains-append c (x ∷ s) t = ground (arith, contains-append c s t)

digits_lack : (c : ℕ) (s : Bytes) → All IsDigit s → 57 < c → contains c s ≡ false
unfolding contains
digits_lack c [] h big = refl
digits_lack c (d ∷ s) (hd, hs) big = ground (arith, digits_lack c s hs big)

-- With no agent the domain comes from the server alone.
domain_total : (server : Text) → (d : ℕ) × (domain_of server [] ≡ ok d)
unfolding domain_of agent_domain
domain_total server = elim (Bool-cases (text_eq server (ascii "lid"))) [
  | inl lid ↦ (lid_domain, rw lid)
  | inr a ↦ rw a (elim (Bool-cases (text_eq server (ascii "hosted"))) [
    | inl hosted ↦ (hosted_domain, rw hosted)
    | inr b ↦ rw b (elim (Bool-cases (text_eq server (ascii "hosted.lid"))) [
      | inl hosted_lid ↦ (hosted_lid_domain, rw hosted_lid)
      | inr c ↦ (whatsapp, rw c)
    ])
  ])
]

device_of_cons : (c : ℕ) (s : Text) → device_of (c ∷ s) ≡ (py_int (c ∷ s) >>= λ z. ok (some z))
unfolding device_of
device_of_cons c s = refl

device_of-decimal : (n : ℕ) → device_of (decimal n) ≡ ok (some (pos n))
device_of-decimal n =
    let (c, s, e) = decimal_cons n in
    rw e (device_of_cons c s)
    ∙ ap (λ (t : Text). py_int t >>= λ z. ok (some z)) (sym e)
    ∙ rw py_int-decimal

-- A user part whose user has no agent.
parts_plain :
    (combined u server : Text) (rest : Option Text) (device : Option ℤ) (d : ℕ)
    → split_at b':' combined ≡ (u, rest)
    → split_at b'_' u ≡ (u, none)
    → device_of (first_piece b':' rest) ≡ ok device
    → domain_of server [] ≡ ok d
    → decode_parts combined server
      ≡ ok (record { user = u; server = server; device = device; domain_type = d })
unfolding first_piece decode_parts
parts_plain combined u server rest device d h1 h2 h3 h4 = rw (h1, decode_parts) (rw (h2, h3, h4))

pub jid_decode-plain :
    (u server : Text)
    → IsPlain u
    → (d : ℕ) × (jid_decode (u ++ (b'@' ∷ server))
        ≡ ok (some (record { user = u; server = server; device = none; domain_type = d })))
jid_decode-plain u server plain =
    let (d, domain) = domain_total server in
    (
      d,
      jid_decode_found (u ++ (b'@' ∷ server)) u server (split_at_found b'@' u server plain.no_at)
          ∙ rw (
              parts_plain u u server none none d (split_at_absent b':' u plain.no_colon)
                (split_at_absent b'_' u plain.no_underscore) (unfold first_piece device_of in refl)
                domain),
    )

-- The server of a device's address, read back from the domain that is written for it.
pub ad_server_domain :
    (domain : ℕ)
    → (d : ℕ) × (domain_of (ad_server domain) [] ≡ ok d)
      × (d < 256)
      × (ad_server d ≡ ad_server domain)
unfolding ad_server domain_of agent_domain text_eq
ad_server_domain domain = elim (Bool-cases (domain == lid_domain)) [
  | inl lid ↦ rw lid (lid_domain, refl, omega arith, refl)
  | inr a ↦ rw a (elim (Bool-cases (domain == hosted_domain)) [
    | inl hosted ↦ rw hosted (hosted_domain, refl, omega arith, refl)
    | inr b ↦ rw b (elim (Bool-cases (domain == hosted_lid_domain)) [
      | inl hosted_lid ↦ rw hosted_lid (hosted_lid_domain, refl, omega arith, refl)
      | inr c ↦ rw c (whatsapp, refl, omega arith, refl)
    ])
  ])
]

pub jid_decode-device :
    (u : Text) (n domain : ℕ)
    → IsPlain u
    → (d : ℕ) × (d < 256)
      × (ad_server d ≡ ad_server domain)
      × (jid_decode ((u ++ (b':' ∷ decimal n)) ++ (b'@' ∷ ad_server domain))
          ≡ ok (
              some (record {
                user = u;
                server = ad_server domain;
                device = some (pos n);
                domain_type = d;
              })))
jid_decode-device u n domain plain =
    let (d, reads, small, same) = ad_server_domain domain in
    let combined : Text = u ++ (b':' ∷ decimal n) in
    let lacks : contains b'@' combined ≡ false =
      contains-append b'@' u (b':' ∷ decimal n)
      ∙ rw plain.no_at
          (unfold contains in digits_lack b'@' (decimal n) (decimal-IsDigit n) (omega arith)) in
    let lacks_colon : split_at b':' (decimal n) ≡ (decimal n, none) =
      split_at_absent b':' (decimal n)
        (digits_lack b':' (decimal n) (decimal-IsDigit n) (omega arith)) in
    (
      d,
      small,
      same,
      jid_decode_found (combined ++ (b'@' ∷ ad_server domain)) combined (ad_server domain)
            (split_at_found b'@' combined (ad_server domain) lacks)
          ∙ rw (
              parts_plain combined u (ad_server domain) (some (decimal n)) (some (pos n)) d
                (split_at_found b':' u (decimal n) plain.no_colon)
                (split_at_absent b'_' u plain.no_underscore)
                (unfold first_piece in
                  ap (λ (t : Text × Option Text). device_of t.0) lacks_colon ∙ device_of-decimal n)
                reads),
    )

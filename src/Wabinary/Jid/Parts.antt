-- ===== src/Wabinary/Jid/Parts.antt =====
-- What `jid_decode` reads off an address.
use wassupweb.Prelude.{
  ℕ, ◌≤◌, ◌<◌, ◌≡◌, refl, sym, ap, ◌∙◌, Option, none, some, [], ◌∷◌, arith, length, length-append,
  ◌>>=◌, >>=-eq-ok, ok-injective, ok,
}
use wassupweb.Text.{split_at_parts, Text, split_at, split_at_shorter}
use wassupweb.Wabinary.Jid.{
  FullJid, first_piece, device_of, domain_of, decode_parts, decode_behind, jid_decode,
}

-- The texts that `decode_parts` splits a user part into.
abbrev pub user_agent : Text → Text
user_agent combined = (split_at b':' combined).0

abbrev pub user_of : Text → Text
user_of combined = (split_at b'_' (user_agent combined)).0

abbrev pub device_text : Text → Text
device_text combined = first_piece b':' (split_at b':' combined).1

abbrev pub agent_text : Text → Text
agent_text combined = first_piece b'_' (split_at b'_' (user_agent combined)).1

-- `decode_parts` as a chain of its two fallible steps.
pub decode_parts_lem :
    (combined server : Text)
    → decode_parts combined server ≡ (
        device_of (device_text combined) >>= λ device.
        domain_of server (agent_text combined) >>= λ domain. ok (record {
          user = user_of combined;
          server = server;
          device = device;
          domain_type = domain;
        }))
unfolding decode_parts
decode_parts_lem combined server = refl

pub record Decoded (jid : Text) (j : FullJid) : Type 0 where
  pub combined : Text
  pub server : Text
  pub at_sign : split_at b'@' jid ≡ (combined, some server)
  pub device : device_of (device_text combined) ≡ ok j.device
  pub domain : domain_of server (agent_text combined) ≡ ok j.domain_type
  pub same_user : j.user ≡ user_of combined
  pub same_server : j.server ≡ server

jid_decode_lem :
    (jid : Text) → jid_decode jid ≡ decode_behind (split_at b'@' jid).0 (split_at b'@' jid).1
unfolding jid_decode
jid_decode_lem jid = refl

behind_some :
    (combined server : Text) (o : Option FullJid)
    → decode_behind combined (some server) ≡ ok o
    → (decode_parts combined server >>= λ full. ok (some full)) ≡ ok o
unfolding decode_behind
behind_some combined server o e = e

pub jid_decode-Decoded : (jid : Text) (j : FullJid) → jid_decode jid ≡ ok (some j) → Decoded jid j
jid_decode-Decoded jid j e =
    go (split_at b'@' jid).0 (split_at b'@' jid).1 refl (sym (jid_decode_lem jid) ∙ e)
  where
    go :
        (combined : Text) (o : Option Text)
        → split_at b'@' jid ≡ (combined, o)
        → decode_behind combined o ≡ ok (some j)
        → Decoded jid j
    go combined none at r = absurd (unfold decode_behind in cc)
    go combined (some server) at r =
        let (full, r1, r2) =
          >>=-eq-ok (decode_parts combined server) _ (behind_some combined server (some j) r) in
        let (device, d1, r3) =
          >>=-eq-ok (device_of (device_text combined)) _
            (sym (decode_parts_lem combined server) ∙ r1) in
        let (domain, d2, r4) = >>=-eq-ok (domain_of server (agent_text combined)) _ r3 in
        let full_j : full ≡ j = cc (ok-injective r2) in
        let same = ok-injective r4 ∙ full_j in
        record {
          combined = combined;
          server = server;
          at_sign = at;
          device = rw (← same) d1;
          domain = rw (← same) d2;
          same_user = rw (← same) refl;
          same_server = rw (← same) refl;
        }

-- No `@`: no address.
pub jid_decode_absent : (jid : Text) → split_at b'@' jid ≡ (jid, none) → jid_decode jid ≡ ok none
unfolding decode_behind
jid_decode_absent jid h =
    jid_decode_lem jid ∙ ap (λ (t : Text × Option Text). decode_behind t.0 t.1) h

split_at-le : (sep : ℕ) (s : Text) → length (split_at sep s).0 ≤ length s
unfolding split_at
split_at-le sep [] = omega arith
split_at-le sep (c ∷ s) = ground (arith, split_at-le sep s)

-- User and server of an address are shorter than the address.
pub jid_decode-shorter :
    (jid : Text) (j : FullJid)
    → jid_decode jid ≡ ok (some j)
    → (length j.user < length jid) × (length j.server < length jid)
jid_decode-shorter jid j e =
    let d = jid_decode-Decoded jid j e in
    let parts = (split_at_parts b'@' jid d.combined d.server d.at_sign) in
    (
      rw d.same_user (
          omega (
            arith,
            parts,
            length-append d.combined (b'@' ∷ d.server),
            split_at-le b':' d.combined,
            split_at-le b'_' (user_agent d.combined),
          )),
      rw d.same_server (omega (arith, split_at_shorter b'@' jid d.combined d.server d.at_sign)),
    )

pub jid_decode_found :
    (jid combined server : Text)
    → split_at b'@' jid ≡ (combined, some server)
    → jid_decode jid ≡ (decode_parts combined server >>= λ full. ok (some full))
unfolding decode_behind
jid_decode_found jid combined server h =
    jid_decode_lem jid ∙ ap (λ (t : Text × Option Text). decode_behind t.0 t.1) h

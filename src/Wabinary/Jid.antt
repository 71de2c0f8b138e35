-- ===== src/Wabinary/Jid.antt =====
-- wassupweb/wabinary/jid_utils.py: addresses `user_agent:device@server`.
pub mod Parts
use wassupweb.Prelude.{
  ℕ, zero, suc, String, Bool, false, ◌&&◌, ◌||◌, Option, none, some, [], ◌∷◌, ◌++◌, ◌==◌,
  if◌then◌else◌, length, Result, ◌>>=◌, ok, err, value_error,
}
use wassupweb.Text.{Text, ascii, text_eq, ends_with, starts_with, split_at}
use wassupweb.Text.Number.{ℤ, pos, negsuc, str_int, py_int}

-- The values of `WAJIDDomains`.
abbrev pub whatsapp : ℕ
whatsapp = 0

abbrev pub lid_domain : ℕ
lid_domain = 1

abbrev pub hosted_domain : ℕ
hosted_domain = 128

abbrev pub hosted_lid_domain : ℕ
hosted_lid_domain = 129

pub record FullJid : Type 0 where
  pub user : Text
  pub server : Text
  pub device : Option ℤ
  pub domain_type : ℕ

unfoldable pub get_server_from_domain_type : Text → Option ℕ → Text
get_server_from_domain_type initial none = initial
get_server_from_domain_type initial (some d) =
    if d == lid_domain
    then ascii "lid"
    else if d == hosted_domain
    then ascii "hosted"
    else if d == hosted_lid_domain
    then ascii "hosted.lid"
    else initial

-- `f":{device}" if device else ""`
unfoldable pub device_part : Option ℤ → Text
device_part none = []
device_part (some (pos zero)) = []
device_part (some z) = b':' ∷ str_int z

-- `f"_{agent}" if agent else ""`
agent_part : Option ℕ → Text
agent_part none = []
agent_part (some zero) = []
agent_part (some (suc n)) = b'_' ∷ str_int (pos (suc n))

unfoldable pub jid_encode : Text → Text → Option ℤ → Option ℕ → Text
unfolding agent_part
jid_encode user server device agent =
    user ++ (agent_part agent ++ (device_part device ++ (b'@' ∷ server)))

-- `WAJIDDomains(n)` raises on any other number.
unfoldable pub wa_jid_domain : ℤ → Result ℕ
wa_jid_domain (negsuc n) = err (value_error "is not a valid WAJIDDomains")
wa_jid_domain (pos n) =
    if n == whatsapp || n == lid_domain || n == hosted_domain || n == hosted_lid_domain
    then ok n
    else err (value_error "is not a valid WAJIDDomains")

-- A missing or empty part of a split.
unfoldable pub first_piece : ℕ → Option Text → Text
first_piece sep none = []
first_piece sep (some rest) = (split_at sep rest).0

-- `int(device_part[0]) if device_part and device_part[0] else None`
unfoldable pub device_of : Text → Result (Option ℤ)
device_of [] = ok none
device_of (c ∷ s) = do z ← py_int (c ∷ s); ok (some z)

unfoldable pub agent_domain : Text → Result ℕ
unfolding wa_jid_domain
agent_domain [] = ok whatsapp
agent_domain (c ∷ s) = do z ← py_int (c ∷ s); wa_jid_domain z

unfoldable pub domain_of : Text → Text → Result ℕ
unfolding agent_domain
domain_of server agent =
    if text_eq server (ascii "lid")
    then ok lid_domain
    else if text_eq server (ascii "hosted")
    then ok hosted_domain
    else if text_eq server (ascii "hosted.lid")
    then ok hosted_lid_domain
    else agent_domain agent

-- The parts of an address with the server behind its first "@".
unfoldable pub decode_parts : Text → Text → Result FullJid
decode_parts user_combined server =
    let (user_agent, device_rest) = split_at b':' user_combined in
    let (user, agent_rest) = split_at b'_' user_agent in
    do
      device ← device_of (first_piece b':' device_rest)
      domain ← domain_of server (first_piece b'_' agent_rest)
      ok (record { user = user; server = server; device = device; domain_type = domain })

decode_behind : Text → Option Text → Result (Option FullJid)
decode_behind user_combined none = ok none
decode_behind user_combined (some server) = do
  full ← decode_parts user_combined server
  ok (some full)

-- `None` where there is no "@"; `int` and `WAJIDDomains` may raise.
unfoldable pub jid_decode : Text → Result (Option FullJid)
unfolding decode_behind decode_parts first_piece device_of domain_of
jid_decode jid =
    let (user_combined, behind) = split_at b'@' jid in decode_behind user_combined behind

-- The suffix tests, on a missing address too.
suffixed : String → Option Text → Bool
suffixed suffix none = false
suffixed suffix (some jid) = ends_with jid (ascii suffix)

unfoldable pub is_jid_meta_ai : Option Text → Bool
unfolding suffixed
is_jid_meta_ai = suffixed "@bot"

unfoldable pub is_pn_user : Option Text → Bool
unfolding suffixed
is_pn_user = suffixed "@s.whatsapp.net"

unfoldable pub is_lid_user : Option Text → Bool
unfolding suffixed
is_lid_user = suffixed "@lid"

unfoldable pub is_jid_broadcast : Option Text → Bool
unfolding suffixed
is_jid_broadcast = suffixed "@broadcast"

unfoldable pub is_jid_group : Option Text → Bool
unfolding suffixed
is_jid_group = suffixed "@g.us"

unfoldable pub is_jid_status_broadcast : Text → Bool
is_jid_status_broadcast jid = text_eq jid (ascii "status@broadcast")

unfoldable pub is_jid_newsletter : Option Text → Bool
unfolding suffixed
is_jid_newsletter = suffixed "@newsletter"

unfoldable pub is_hosted_pn_user : Option Text → Bool
unfolding suffixed
is_hosted_pn_user = suffixed "@hosted"

unfoldable pub is_hosted_lid_user : Option Text → Bool
unfolding suffixed
is_hosted_lid_user = suffixed "@hosted.lid"

-- `jid.split("@", 1)[0]`
unfoldable pub is_jid_bot : Option Text → Bool
is_jid_bot none = false
is_jid_bot (some jid) =
    let user = (split_at b'@' jid).0 in
    ends_with jid (ascii "@c.us")
    && length user == 11
    && (starts_with user (ascii "1313555") || starts_with user (ascii "131655500"))

unfoldable pub are_jids_same_user : Text → Text → Result Bool
are_jids_same_user jid1 jid2 = do
  left ← jid_decode jid1
  right ← jid_decode jid2
  ok (elim left [
    | none ↦ false
    | some l ↦ elim right [ none ↦ false | some r ↦ text_eq l.user r.user ]
  ])

normalized : Option FullJid → Text
normalized none = []
normalized (some j) =
    jid_encode j.user (if text_eq j.server (ascii "c.us") then ascii "s.whatsapp.net" else j.server)
      none none

unfoldable pub jid_normalized_user : Text → Result Text
unfolding normalized
jid_normalized_user jid = do result ← jid_decode jid; ok (normalized result)

-- `from_decoded.get("device", 0) or 0`
device_or_zero : Option FullJid → ℤ
device_or_zero none = pos 0
device_or_zero (some j) = elim j.device [ none ↦ pos 0 | some d ↦ d ]

transferred : ℤ → Option FullJid → Result Text
transferred device none = err (value_error "invalid JID")
transferred device (some j) = ok (jid_encode j.user j.server (some device) none)

unfoldable pub transfer_device : Text → Text → Result Text
unfolding device_or_zero transferred
transfer_device from_jid to_jid = do
  from_decoded ← jid_decode from_jid
  to_decoded ← jid_decode to_jid
  transferred (device_or_zero from_decoded) to_decoded

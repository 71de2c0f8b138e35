-- ===== src/Identity/Debounce.antt =====
-- A second notification of the same contact within the debounce time refreshes nothing.
use wassupweb.Prelude.{
  ℕ, ◌+◌, ◌<◌, ◌≡◌, refl, inl, inr, Bool, true, false, some, arith, leb, Bool-cases, Option-cases,
}
use wassupweb.Text.{Text}
use wassupweb.Retry.Lookup.{text_eq_refl}
use wassupweb.Identity.{debounced, Context, TtlBoolCache, expiry_of, ttl_get, ttl_set, debounce}

ttl_get-set :
    (now later : ℕ) (key : Text) (c : TtlBoolCache)
    → later < now + c.ttl_ms
    → ttl_get later key (ttl_set now key true c) ≡ (true, ttl_set now key true c)
unfolding ttl_get ttl_set expiry_of
ttl_get-set now later key c soon =
    let alive : leb (now + c.ttl_ms) later ≡ false = ground arith in
    let set = ttl_set now key true c in
    let found : expiry_of key set.expiries ≡ some (now + c.ttl_ms) =
      rw (expiry_of, text_eq_refl key) refl in
    rw (ttl_get, found, alive) refl

ttl_get-ttl : (now : ℕ) (key : Text) (c : TtlBoolCache) → (ttl_get now key c).1.ttl_ms ≡ c.ttl_ms
unfolding ttl_get
ttl_get-ttl now key c = elim (Option-cases (expiry_of key c.expiries)) [
  | inl e ↦ rw (ttl_get, e) refl
  | inr (exp, e) ↦ elim (Bool-cases (leb exp now)) [
    | inl old ↦ rw (ttl_get, e, old) refl
    | inr new ↦ rw (ttl_get, e, new) refl
  ]
]

-- Behind the checks of the address: where the first notification was not debounced, a second one of the
-- same contact within the cache's time is, and leaves the cache as it is.
pub debounce-again :
    (now later : ℕ) (ctx : Context) (jid : Text) (offline offline' : Bool) (c : TtlBoolCache)
    → (ttl_get now jid c).0 ≡ false
    → later < now + c.ttl_ms
    → debounce later ctx jid offline' (debounce now ctx jid offline (some c)).1
      ≡ (debounced, (debounce now ctx jid offline (some c)).1)
unfolding debounce
debounce-again now later ctx jid offline offline' c missed soon =
    let c' = (ttl_get now jid c).1 in
    let again = ttl_get-set now later jid c' (rw (ttl_get-ttl now jid c) soon) in
    rw missed (rw (debounce, again) refl)

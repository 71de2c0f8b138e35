-- ===== src/Noise/Counters.antt =====
-- Initialisation vectors: no two counters below 2 ^ 32 share one.
use wassupweb.Prelude.{
  ℕ, ◌/◌, ◌%◌, ◌<◌, ◌≡◌, ap, none, some, List, [], ◌∷◌, arith, Bytes, get_elem?,
}
use wassupweb.Crypto.{Primitives}
use wassupweb.Noise.State.{generate_iv, TransportState, transport_encrypt}

-- Two counters below 2 ^ 32 with the same initialisation vector are equal.
pub generate_iv-injective :
    (a b : ℕ) → a < 4294967296 → b < 4294967296 → generate_iv a ≡ generate_iv b → a ≡ b
unfolding generate_iv
generate_iv-injective a b ha hb e = let (b3, b2, b1, b0) = parts e in omega (arith, b3, b2, b1, b0)
  where
    at : ℕ → Bytes → ℕ
    at i bytes = elim (get_elem? bytes i) [ none ↦ 0 | some x ↦ x ]

    parts :
        generate_iv a ≡ generate_iv b
        → (a / 16777216 % 256 ≡ b / 16777216 % 256)
          × (a / 65536 % 256 ≡ b / 65536 % 256)
          × (a / 256 % 256 ≡ b / 256 % 256)
          × (a % 256 ≡ b % 256)
    parts e = (ap (at 8) e, ap (at 9) e, ap (at 10) e, ap (at 11) e)

module _ (p : Primitives) where
  -- The transport after a run of messages.
  unfoldable pub transport_after : List Bytes → TransportState → TransportState
  transport_after [] t = t
  transport_after (m ∷ ms) t = transport_after ms (transport_encrypt p m t).1

-- ===== src/Wabinary/RoundTrip/Canonical.antt =====
-- The texts that survive the format, and the tables that encoder and decoder agree on.
use wassupweb.Prelude.{
  ℕ, ◌≤◌, ◌<◌, ◌≡◌, refl, Bool, true, false, none, some, List, [], ◌∷◌, ◌++◌, arith, length,
  get_elem?,
}
use wassupweb.Text.{Text, contains, is_utf8}
use wassupweb.Text.Number.{decimal}
use wassupweb.Wabinary.Node.{Token, single, double, Tables}
use wassupweb.Wabinary.Encode.Write.{is_nibble, is_hex, every, packs, nibble_char, hex_char}
use wassupweb.Wabinary.Decode.Reader.{ad_server}
use wassupweb.Wabinary.RoundTrip.Address.{IsPlain}

-- `TOKEN_MAP` points each text to its place in the token lists. The empty text, which it points to
-- place 0, is written without it.
pub record IsTable (t : Tables) : Type 0 where
  pub small : length t.single_tokens ≤ 236
  pub single_found :
      (c : ℕ) (v : Text) (i : ℕ)
      → t.token_map (c ∷ v) ≡ some (single i)
      → (1 ≤ i) × (i < length t.single_tokens) × (get_elem? t.single_tokens i ≡ some (c ∷ v))
  pub double_found :
      (c : ℕ) (v : Text) (d i : ℕ)
      → t.token_map (c ∷ v) ≡ some (double d i)
      → (dictionary : List Text) × (d < 4)
        × (i < 256)
        × (get_elem? t.double_tokens d ≡ some dictionary)
        × (get_elem? dictionary i ≡ some (c ∷ v))

-- Texts that the decoder gives back as they were: the empty one, tokens, packed texts, other texts
-- with no "@", addresses with no device, and addresses of a device 1 to 255 on the four servers that
-- have a domain number. An address has no agent.
pub data Canonical (t : Tables) : Text → Type 0 where
  empty : Canonical t []
  token : (c : ℕ) (v : Text) (k : Token) → t.token_map (c ∷ v) ≡ some k → Canonical t (c ∷ v)
  nibble :
      (c : ℕ) (v : Text)
      → t.token_map (c ∷ v) ≡ none
      → is_nibble (c ∷ v) ≡ true
      → Canonical t (c ∷ v)
  hex :
      (c : ℕ) (v : Text)
      → t.token_map (c ∷ v) ≡ none
      → is_nibble (c ∷ v) ≡ false
      → is_hex (c ∷ v) ≡ true
      → Canonical t (c ∷ v)
  raw :
      (c : ℕ) (v : Text)
      → t.token_map (c ∷ v) ≡ none
      → is_nibble (c ∷ v) ≡ false
      → is_hex (c ∷ v) ≡ false
      → contains b'@' (c ∷ v) ≡ false
      → is_utf8 (c ∷ v) ≡ true
      → length (c ∷ v) < 4294967296
      → Canonical t (c ∷ v)
  pair :
      (v u : Text) (c : ℕ) (server : Text)
      → v ≡ u ++ (b'@' ∷ c ∷ server)
      → t.token_map v ≡ none
      → IsPlain u
      → Canonical t u
      → Canonical t (c ∷ server)
      → Canonical t v
  device :
      (v u : Text) (n domain : ℕ)
      → v ≡ (u ++ (b':' ∷ decimal n)) ++ (b'@' ∷ ad_server domain)
      → t.token_map v ≡ none
      → 0 < n
      → n < 256
      → IsPlain u
      → Canonical t u
      → Canonical t v

every-append : (f : ℕ → Bool) (c : ℕ) (s t : Text) → f c ≡ false → every f (s ++ (c ∷ t)) ≡ false
unfolding every
every-append f c [] t h = rw h
every-append f c (x ∷ s) t h = ground (arith, every-append f c s t h)

packs_fail :
    (f : ℕ → Bool) (v s t : Text) (c : ℕ) → f c ≡ false → v ≡ s ++ (c ∷ t) → packs f v ≡ false
unfolding packs
packs_fail f v s t c h e = rw e (ground (arith, every-append f c s t h))

-- A text with an "@" is not packed.
pub not_packed : (v s t : Text) → v ≡ s ++ (b'@' ∷ t) → (is_nibble v ≡ false) × (is_hex v ≡ false)
unfolding is_nibble is_hex
not_packed v s t e = (
  packs_fail nibble_char v s t b'@' (unfold nibble_char in refl) e,
  packs_fail hex_char v s t b'@' (unfold hex_char in refl) e,
)

-- ===== src/Wabinary/RoundTrip/Shape.antt =====
-- What the first byte of a written text tells: the forms that `decode_binary_node` takes for bytes.
use wassupweb.Prelude.{
  ℕ, ◌<◌, ◌≡◌, refl, ◌∙◌, ◌≢◌, ◌⊎◌, inl, inr, Bool, true, false, not, ◌||◌, none, some, [], ◌∷◌,
  ◌++◌, arith, ◌==◌, Bytes, length,
}
use wassupweb.Text.{Text, contains}
use wassupweb.Wabinary.Tag
use wassupweb.Wabinary.Node.{Tables, Token}
use wassupweb.Wabinary.Encode.Write.{is_nibble, is_hex}
use wassupweb.Wabinary.RoundTrip.Sizes.{SizeForm}
use wassupweb.Wabinary.RoundTrip.Address.{contains-append}

-- Texts that are written as raw bytes: the empty one, and those that are no token, do not pack and
-- have no "@".
unfoldable pub is_raw : Tables → Text → Bool
is_raw t [] = true
is_raw t (c ∷ v) = elim (t.token_map (c ∷ v)) [
  | some k ↦ false
  | none ↦ not (is_nibble (c ∷ v) || is_hex (c ∷ v) || contains b'@' (c ∷ v))
]

-- A tag of a text that is neither a list nor raw bytes.
pub record IsTextTag (b : ℕ) : Type 0 where
  pub no_empty : (b == Tag.list_empty) ≡ false
  pub no_list_8 : (b == Tag.list_8) ≡ false
  pub no_list_16 : (b == Tag.list_16) ≡ false
  pub no_binary_8 : (b == Tag.binary_8) ≡ false
  pub no_binary_20 : (b == Tag.binary_20) ≡ false
  pub no_binary_32 : (b == Tag.binary_32) ≡ false

pub data Shape (t : Tables) (v : Text) : Bytes → Type 0 where
  tagged : (b : ℕ) (s : Bytes) → is_raw t v ≡ false → IsTextTag b → Shape t v (b ∷ s)
  sized : (size : Bytes) → is_raw t v ≡ true → SizeForm (length v) size → Shape t v (size ++ v)

pub text_tag : (b : ℕ) → b ≢ 0 → (b < 248) ⊎ ((b ≡ 250) ⊎ ((b ≡ 251) ⊎ (b ≡ 255))) → IsTextTag b
text_tag b pos h = record {
  no_empty = ground arith;
  no_list_8 = ground arith;
  no_list_16 = ground arith;
  no_binary_8 = ground arith;
  no_binary_20 = ground arith;
  no_binary_32 = ground arith;
}

pub append-ne-nil : (xs : Text) (y : ℕ) (ys : Text) → xs ++ (y ∷ ys) ≢ []
append-ne-nil [] y ys e = cc
append-ne-nil (x ∷ xs) y ys e = cc

has_at : (u w : Text) → contains b'@' (u ++ (b'@' ∷ w)) ≡ true
unfolding contains
has_at u w = contains-append b'@' u (b'@' ∷ w) ∙ at_end (contains b'@' u)
  where
    at_end : (a : Bool) → (a || true) ≡ true
    at_end a = ground arith

module _ (t : Tables) where
  pub is_raw-token :
      (c : ℕ) (v : Text) (k : Token) → t.token_map (c ∷ v) ≡ some k → is_raw t (c ∷ v) ≡ false
  unfolding is_raw
  is_raw-token c v k e = rw (is_raw, e)

  pub is_raw-untabled :
      (v : Text)
      → v ≢ []
      → t.token_map v ≡ none
      → is_raw t v ≡ not (is_nibble v || is_hex v || contains b'@' v)
  unfolding is_raw
  is_raw-untabled [] some_char e = absurd (some_char refl)
  is_raw-untabled (c ∷ v) some_char e = rw (is_raw, e)

  pub packed-Shape :
      (c : ℕ) (v : Text) (tag : ℕ) (s : Bytes)
      → (tag ≡ 251) ⊎ (tag ≡ 255)
      → t.token_map (c ∷ v) ≡ none
      → (is_nibble (c ∷ v) || is_hex (c ∷ v)) ≡ true
      → Shape t (c ∷ v) (tag ∷ s)
  packed-Shape c v tag s which unknown h =
      tagged tag s
        (is_raw-untabled (c ∷ v) (λ e. cc) unknown
          ∙ packed (is_nibble (c ∷ v)) (is_hex (c ∷ v)) (contains b'@' (c ∷ v)) h)
        (text_tag tag (λ e. omega arith) (inr (inr which)))
    where
      packed : (a b d : Bool) → (a || b) ≡ true → not (a || b || d) ≡ false
      packed a b d e = ground arith

  pub address-Shape :
      (u w : Text) (b : ℕ) (s : Bytes)
      → (b < 248) ⊎ (b ≡ 250)
      → b ≢ 0
      → t.token_map (u ++ (b'@' ∷ w)) ≡ none
      → Shape t (u ++ (b'@' ∷ w)) (b ∷ s)
  address-Shape u w b s which pos unknown =
      tagged b s
        (is_raw-untabled (u ++ (b'@' ∷ w)) (append-ne-nil u _ _) unknown
          ∙ marked (is_nibble (u ++ (b'@' ∷ w))) (is_hex (u ++ (b'@' ∷ w))) (has_at u w))
        (text_tag b pos (elim which [ inl low ↦ inl low | inr pair_tag ↦ inr (inl pair_tag) ]))
    where
      marked : (a b : Bool) {d : Bool} → d ≡ true → not (a || b || d) ≡ false
      marked a b e = ground arith

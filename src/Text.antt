-- ===== src/Text.antt =====
-- Python text. A `str` is modelled by the bytes of its UTF-8 encoding, so `encode("utf-8")` is the
-- identity and `decode("utf-8")` a check; the characters that the program tests are ASCII.
pub mod Number
use Prim.Native.Char.{code}
use wassupweb.Prelude.{
  ℕ, zero, suc, ◌+◌, ◌-◌, ◌*◌, ◌/◌, ◌%◌, ◌^◌, ◌≤◌, ◌<◌, min, max, bit_and, bit_or, String, ◌≡◌,
  refl, sym, ap, ◌∙◌, ◌≢◌, ◌↔◌, ◌⊎◌, inl, inr, Bool, true, false, not, ◌&&◌, ◌||◌, Option, none,
  some, List, [], ◌∷◌, ◌++◌, map, arith, ltb, leb, ◌==◌, if◌then◌else◌, ltb→lt, lt→ltb, le→ltb,
  ==_iff, Bool-cases, Option-cases, ltb→le, IsByte, Bytes, All, All-append, length, get_elem?, take,
  drop, replicate, length-append, length-take, length-drop, length-replicate, take-length-append,
  drop-length-append, drop-add, take-length, Exception, Result, ◌>>=◌, ◌>>◌, Result-cases,
  >>=-eq-ok, ok-injective, ok, err, value_error, runtime_error, type_error, index_error,
  struct_error, key_error, recursion_error,
}

abbrev pub Text : Type 0
Text = Bytes

-- The bytes of an ASCII literal.
abbrev pub ascii : String → Text
ascii String.[] = []
ascii (String.◌∷◌ c s) = code c ∷ ascii s

unfoldable pub text_eq : Text → Text → Bool
text_eq [] [] = true
text_eq [] (d ∷ t) = false
text_eq (c ∷ s) [] = false
text_eq (c ∷ s) (d ∷ t) = c == d && text_eq s t

-- `s.endswith(t)`
unfoldable pub ends_with : Text → Text → Bool
unfolding text_eq
ends_with s t = leb (length t) (length s) && text_eq (drop (length s - length t) s) t

-- `s.startswith(t)`
unfoldable pub starts_with : Text → Text → Bool
unfolding text_eq
starts_with s t = text_eq (take (length t) s) t

-- What stands before the first `sep`, and what stands behind it, if it is there.
unfoldable pub split_at : ℕ → Text → Text × Option Text
split_at sep [] = ([], none)
split_at sep (c ∷ s) =
    let rest = split_at sep s in if c == sep then ([], some s) else (c ∷ rest.0, rest.1)

unfoldable pub contains : ℕ → Text → Bool
contains sep [] = false
contains sep (c ∷ s) = c == sep || contains sep s

is_continuation : ℕ → Bool
is_continuation b = leb 0x80 b && leb b 0xbf

-- Whether `bytes.decode("utf-8")` succeeds: no overlong form, no surrogate, nothing past U+10FFFF.
unfoldable pub is_utf8 : Bytes → Bool
unfolding is_continuation
is_utf8 [] = true
is_utf8 (a ∷ []) = ltb a 0x80
is_utf8 (a ∷ b ∷ []) =
    if ltb a 0x80 then ltb b 0x80 else leb 0xc2 a && leb a 0xdf && is_continuation b
is_utf8 (a ∷ b ∷ c ∷ []) =
    let one = is_utf8 (b ∷ c ∷ []) in
    let two = is_utf8 (c ∷ []) in
    if ltb a 0x80
    then one
    else if leb 0xc2 a && leb a 0xdf
    then is_continuation b && two
    else leb 0xe0 a
      && leb a 0xef
      && is_continuation b
      && is_continuation c
      && (not (a == 0xe0) || leb 0xa0 b)
      && (not (a == 0xed) || leb b 0x9f)
is_utf8 (a ∷ b ∷ c ∷ d ∷ s) =
    let one = is_utf8 (b ∷ c ∷ d ∷ s) in
    let two = is_utf8 (c ∷ d ∷ s) in
    let three = is_utf8 (d ∷ s) in
    let four = is_utf8 s in
    if ltb a 0x80
    then one
    else if leb 0xc2 a && leb a 0xdf
    then is_continuation b && two
    else if leb 0xe0 a && leb a 0xef
    then is_continuation b
      && is_continuation c
      && (not (a == 0xe0) || leb 0xa0 b)
      && (not (a == 0xed) || leb b 0x9f)
      && three
    else leb 0xf0 a
      && leb a 0xf4
      && is_continuation b
      && is_continuation c
      && is_continuation d
      && (not (a == 0xf0) || leb 0x90 b)
      && (not (a == 0xf4) || leb b 0x8f)
      && four

-- `raw.decode("utf-8")`
unfoldable pub decode_utf8 : Bytes → Result Text
decode_utf8 raw = if is_utf8 raw then ok raw else err (value_error "invalid utf-8")

pub text_eq_iff : (s t : Text) → (text_eq s t ≡ true) ↔ (s ≡ t)
unfolding text_eq
text_eq_iff [] [] = (λ h. refl, λ h. refl)
text_eq_iff [] (d ∷ t) = (λ h. absurd (cc), λ h. absurd (cc))
text_eq_iff (c ∷ s) [] = (λ h. absurd (cc), λ h. absurd (cc))
text_eq_iff (c ∷ s) (d ∷ t) =
    let (to, from) = text_eq_iff s t in (λ h. ground arith, λ h. ground arith)

-- A separator that does not occur splits nothing off.
pub split_at_absent : (sep : ℕ) (s : Text) → contains sep s ≡ false → split_at sep s ≡ (s, none)
unfolding split_at contains
split_at_absent sep [] h = refl
split_at_absent sep (c ∷ s) h = ground (arith, split_at_absent sep s)

pub split_at_found :
    (sep : ℕ) (s t : Text) → contains sep s ≡ false → split_at sep (s ++ (sep ∷ t)) ≡ (s, some t)
unfolding split_at contains
split_at_found sep [] t h = ground arith
split_at_found sep (c ∷ s) t h = ground (arith, split_at_found sep s t)

-- What stands behind a separator is shorter than the text.
pub split_at_shorter :
    (sep : ℕ) (s before behind : Text)
    → split_at sep s ≡ (before, some behind)
    → length behind < length s
unfolding split_at
split_at_shorter sep [] before behind e = absurd (cc)
split_at_shorter sep (c ∷ s) before behind e = elim (Bool-cases (c == sep)) [
  | inl here ↦
      let same : some s ≡ some behind = ground arith in
      let eq : s ≡ behind = cc in rw eq (omega arith)
  | inr later ↦
      let tail : (split_at sep s).1 ≡ some behind = ground arith in
      omega (
        arith,
        split_at_shorter sep s (split_at sep s).0 behind
            (ap (λ (o : Option Text). ((split_at sep s).0, o)) tail),
      )
]

-- The separator stands between the two parts.
pub split_at_parts :
    (sep : ℕ) (s before behind : Text)
    → split_at sep s ≡ (before, some behind)
    → length s ≡ length before + length behind + 1
unfolding split_at
split_at_parts sep [] before behind e = absurd (cc)
split_at_parts sep (c ∷ s) before behind e = elim (Bool-cases (c == sep)) [
  | inl here ↦
      let same : some s ≡ some behind = ground arith in
      let nil : [] ≡ before = ground arith in
      let eq : s ≡ behind = cc in rw (← eq, ← nil) (omega arith)
  | inr later ↦
      let tail : (split_at sep s).1 ≡ some behind = ground arith in
      let head : c ∷ (split_at sep s).0 ≡ before = ground arith in
      let ih =
        split_at_parts sep s (split_at sep s).0 behind
          (ap (λ (o : Option Text). ((split_at sep s).0, o)) tail) in
      rw (← head) (omega (arith, ih))
]

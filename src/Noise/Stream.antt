-- ===== src/Noise/Stream.antt =====
-- Frames on the stream: the framing is read back, and it does not matter how the stream is cut.
use wassupweb.Prelude.{
  ℕ, zero, suc, ◌+◌, ◌*◌, ◌/◌, ◌%◌, ◌≤◌, ◌<◌, ◌≡◌, refl, sym, ap, ◌∙◌, inl, inr, Option, none, some,
  [], ◌∷◌, ◌++◌, arith, ltb, if◌then◌else◌, le→ltb, Bool-cases, ltb→le, Bytes, length, take, drop,
  length-append, length-drop, take-length-append, drop-length-append,
}
use wassupweb.Noise.State.{size_bytes}
use wassupweb.Noise.Frames.{next_frame}

-- A frame below 2 ^ 24 bytes, whatever follows it on the stream.
pub next_frame-size :
    (output rest : Bytes)
    → length output < 16777216
    → next_frame (size_bytes (length output) ++ (output ++ rest)) ≡ some (output, rest)
unfolding next_frame
next_frame-size output rest h =
    let size : (length output / 65536 % 256) * 65536
          + (length output / 256 % 256) * 256
          + length output % 256
        ≡ length output =
      omega arith in
    rw (
      size,
      le→ltb (length (output ++ rest)) (length output) (omega (arith, length-append output rest)),
      take-length-append output rest,
      drop-length-append output rest,
    )

take-append : (n : ℕ) (xs ys : Bytes) → n ≤ length xs → take n (xs ++ ys) ≡ take n xs
take-append zero xs ys h = refl
take-append (suc n) [] ys h = ground arith
take-append (suc n) (x ∷ xs) ys h = ap (λ t. x ∷ t) (take-append n xs ys (omega arith))

drop-append : (n : ℕ) (xs ys : Bytes) → n ≤ length xs → drop n (xs ++ ys) ≡ drop n xs ++ ys
drop-append zero xs ys h = refl
drop-append (suc n) [] ys h = ground arith
drop-append (suc n) (x ∷ xs) ys h = drop-append n xs ys (omega arith)

cut_frame : ℕ → Bytes → Option (Bytes × Bytes)
cut_frame size rest = if ltb (length rest) size then none else some (take size rest, drop size rest)

cut_frame-append :
    (size : ℕ) (x b frame rest : Bytes)
    → cut_frame size x ≡ some (frame, rest)
    → (cut_frame size (x ++ b) ≡ some (frame, rest ++ b)) × (length rest ≤ length x)
unfolding cut_frame
cut_frame-append size x b frame rest e = elim (Bool-cases (ltb (length x) size)) [
  | inl short ↦ let cut : cut_frame size x ≡ none = rw short refl in impossible (sym cut ∙ e)
  | inr long ↦
      let enough = ltb→le (length x) size long in
      let cut : cut_frame size x ≡ some (take size x, drop size x) = rw long refl in
      let (is_frame, is_rest) = parts (sym cut ∙ e) in
      (
        rw (
          le→ltb (length (x ++ b)) size (omega (arith, enough, length-append x b)),
          take-append size x b enough,
          drop-append size x b enough,
          is_frame,
          is_rest,
        ),
        rw⁻¹ is_rest (omega (arith, length-drop size x)),
      )
]
  where
    impossible :
        ◌≡◌ {A = Option (Bytes × Bytes)} none (some (frame, rest))
        → (cut_frame size (x ++ b) ≡ some (frame, rest ++ b)) × (length rest ≤ length x)
    impossible e = cc

    parts :
        ◌≡◌ {A = Option (Bytes × Bytes)} (some (take size x, drop size x)) (some (frame, rest))
        → (take size x ≡ frame) × (drop size x ≡ rest)
    parts e = (cc, cc)

pub next_frame-append :
    (x b frame rest : Bytes)
    → next_frame x ≡ some (frame, rest)
    → (next_frame (x ++ b) ≡ some (frame, rest ++ b)) × (length rest + 3 ≤ length x)
unfolding next_frame cut_frame
next_frame-append [] b frame rest e = cc
next_frame-append (x ∷ []) b frame rest e = cc
next_frame-append (x ∷ y ∷ []) b frame rest e = cc
next_frame-append (x ∷ y ∷ z ∷ s) b frame rest e =
    let (found, small) = cut_frame-append (x * 65536 + y * 256 + z) s b frame rest e in
    (found, omega (arith, small))

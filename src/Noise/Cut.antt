-- ===== src/Noise/Cut.antt =====
-- The receiving loop does not depend on where the network cuts the stream.
use wassupweb.Prelude.{
  ℕ, zero, suc, ◌+◌, ◌≤◌, ◌≡◌, refl, sym, ap, ◌∙◌, inl, inr, Option, none, some, [], ◌∷◌, arith,
  Option-cases, Bytes, length, Result, ◌>>=◌, Result-cases, ok-injective, ok,
}
use wassupweb.Crypto.{Primitives}
use wassupweb.Wabinary.Node.{BinaryNode}
use wassupweb.Noise.State.{NoiseHandler, TransportState, transport_decrypt, generate_iv}
use wassupweb.Noise.Frames.{
  Frame, raw, stanza, next_frame, deliver_over, deliver, process_loop, process_data,
}
use wassupweb.Noise.Stream.{next_frame-append}

-- A handler with other bytes in its buffer.
unfoldable pub with_bytes : Bytes → NoiseHandler → NoiseHandler
with_bytes bytes h = record h { in_bytes = bytes }

-- A callback that neither reads nor changes the buffer, nor says that frames have to wait.
pub record IsBlind {W : Type 0} (on_frame : Frame → NoiseHandler × W → Result (NoiseHandler × W))
    : Type 0 where
  pub blind :
      (frame : Frame) (h : NoiseHandler) (world : W) (bytes : Bytes)
      → on_frame frame (with_bytes bytes h, world)
        ≡ (on_frame frame (h, world) >>= λ s. ok (with_bytes bytes s.0, s.1))
  pub keeps :
      (frame : Frame) (h : NoiseHandler) (world : W) (s : NoiseHandler × W)
      → on_frame frame (h, world) ≡ ok s
      → s.0.waiting ≡ h.waiting

nothing_left : (x : Bytes) → length x ≤ 0 → next_frame x ≡ none
unfolding next_frame
nothing_left [] h = refl
nothing_left (b ∷ x) h = ground arith

module _ (p : Primitives) (decode : Bytes → Result BinaryNode) {W : Type 0}
    (on_frame : Frame → NoiseHandler × W → Result (NoiseHandler × W)) (q : IsBlind on_frame) where
  unfoldable pub set_bytes : Bytes → NoiseHandler × W → Result (NoiseHandler × W)
  set_bytes bytes s = ok (with_bytes bytes s.0, s.1)

  deliver_over-set_bytes :
      (o : Option TransportState) (frame bytes : Bytes) (h : NoiseHandler) (world : W)
      → deliver_over p decode on_frame o frame (with_bytes bytes h, world)
        ≡ (deliver_over p decode on_frame o frame (h, world) >>= set_bytes bytes)
  unfolding deliver_over with_bytes transport_decrypt set_bytes
  deliver_over-set_bytes none frame bytes h world = q.blind (raw frame) h world bytes
  deliver_over-set_bytes (some t) frame bytes h world =
      let iv = generate_iv t.read_counter in
      elim (Result-cases (p.gcm_decrypt t.dec_key iv [] frame)) [
        | inr (x, e) ↦ rw e refl
        | inl (plain, e) ↦ elim (Result-cases (decode plain)) [
          | inr (x, e') ↦ rw (e, e') refl
          | inl (decoded, e') ↦
              rw (e, e')
                (q.blind (stanza decoded)
                  (record h { transport = some (record t { read_counter = t.read_counter + 1 }) })
                  world bytes)
        ]
      ]

  pub deliver-set_bytes :
      (frame bytes : Bytes) (h : NoiseHandler) (world : W)
      → deliver p decode on_frame frame (with_bytes bytes h, world)
        ≡ (deliver p decode on_frame frame (h, world) >>= set_bytes bytes)
  unfolding deliver with_bytes
  deliver-set_bytes frame bytes h world = deliver_over-set_bytes h.transport frame bytes h world

  -- The buffer is what the loop left of it.
  pub deliver-in_bytes :
      (frame : Bytes) (h : NoiseHandler) (world : W) (s : NoiseHandler × W)
      → deliver p decode on_frame frame (h, world) ≡ ok s
      → s.0.in_bytes ≡ h.in_bytes
  unfolding with_bytes set_bytes
  deliver-in_bytes frame h world s e =
      let same : deliver p decode on_frame frame (h, world) ≡ (ok s >>= set_bytes h.in_bytes) =
        deliver-set_bytes frame h.in_bytes h world ∙ ap (λ r. r >>= set_bytes h.in_bytes) e in
      ap (λ (r : NoiseHandler × W). r.0.in_bytes) (ok-injective (sym e ∙ same))

  abbrev pub process : NoiseHandler × W → Result (NoiseHandler × W)
  process = process_data p decode on_frame

  loop_end :
      (f : ℕ) (h : NoiseHandler) (world : W)
      → next_frame h.in_bytes ≡ none
      → process_loop p decode on_frame f (h, world) ≡ ok (h, world)
  unfolding process_loop
  loop_end zero h world e = refl
  loop_end (suc f) h world e = rw (process_loop, e) refl

  loop_round :
      (f : ℕ) (h : NoiseHandler) (world : W) (frame rest : Bytes)
      → next_frame h.in_bytes ≡ some (frame, rest)
      → process_loop p decode on_frame (suc f) (h, world) ≡ (
          deliver p decode on_frame frame (with_bytes rest h, world)
          >>= process_loop p decode on_frame f)
  unfolding process_loop with_bytes
  loop_round f h world frame rest e = rw (process_loop, e) refl

  -- One round more, with any two amounts of fuel that are enough for what is left.
  rounds_agree :
      (f g : ℕ) (h : NoiseHandler) (world : W) (frame rest : Bytes)
      → next_frame h.in_bytes ≡ some (frame, rest)
      → ((h' : NoiseHandler) (world' : W)
          → h'.in_bytes ≡ rest
          → process_loop p decode on_frame f (h', world')
            ≡ process_loop p decode on_frame g (h', world'))
      → process_loop p decode on_frame (suc f) (h, world)
        ≡ process_loop p decode on_frame (suc g) (h, world)
  unfolding with_bytes
  rounds_agree f g h world frame rest e same =
      loop_round f h world frame rest e ∙ after ∙ sym (loop_round g h world frame rest e)
    where
      after :
          (deliver p decode on_frame frame (with_bytes rest h, world)
            >>= process_loop p decode on_frame f)
          ≡ (deliver p decode on_frame frame (with_bytes rest h, world)
              >>= process_loop p decode on_frame g)
      after = elim (Result-cases (deliver p decode on_frame frame (with_bytes rest h, world))) [
        | inr (x, bad) ↦ rw bad refl
        | inl (s, good) ↦
            rw good (same s.0 s.1 (deliver-in_bytes frame (with_bytes rest h) world s good))
      ]

  -- The loop computes the same with any fuel that is not below the length of the buffer.
  process_loop-fuel :
      (f g : ℕ) (h : NoiseHandler) (world : W)
      → length h.in_bytes ≤ f
      → length h.in_bytes ≤ g
      → process_loop p decode on_frame f (h, world) ≡ process_loop p decode on_frame g (h, world)
  process_loop-fuel zero g h world hf hg =
      let e = nothing_left h.in_bytes hf in loop_end zero h world e ∙ sym (loop_end g h world e)
  process_loop-fuel (suc f) zero h world hf hg =
      let e = nothing_left h.in_bytes hg in
      loop_end (suc f) h world e ∙ sym (loop_end zero h world e)
  process_loop-fuel (suc f) (suc g) h world hf hg = elim (Option-cases (next_frame h.in_bytes)) [
    | inl e ↦ loop_end (suc f) h world e ∙ sym (loop_end (suc g) h world e)
    | inr ((frame, rest), e) ↦
        let small = (next_frame-append h.in_bytes [] frame rest e).1 in
        rounds_agree f g h world frame rest e (λ h' world' left.
          process_loop-fuel f g h' world' (rw left (omega (arith, small, hf)))
            (rw left (omega (arith, small, hg))))
  ]

  pub process_end :
      (h : NoiseHandler) (world : W)
      → next_frame h.in_bytes ≡ none
      → process (h, world) ≡ ok (h, world)
  unfolding process_data
  process_end h world e = loop_end (length h.in_bytes) h world e

  pub process_round :
      (h : NoiseHandler) (world : W) (frame rest : Bytes)
      → next_frame h.in_bytes ≡ some (frame, rest)
      → process (h, world)
        ≡ (deliver p decode on_frame frame (with_bytes rest h, world) >>= process)
  unfolding process_data with_bytes
  process_round h world frame rest e =
      process_loop-fuel (length h.in_bytes) (suc (length h.in_bytes)) h world (omega arith)
        (omega arith)
      ∙ loop_round (length h.in_bytes) h world frame rest e
      ∙ after
    where
      after :
          (deliver p decode on_frame frame (with_bytes rest h, world)
            >>= process_loop p decode on_frame (length h.in_bytes))
          ≡ (deliver p decode on_frame frame (with_bytes rest h, world) >>= process)
      after = elim (Result-cases (deliver p decode on_frame frame (with_bytes rest h, world))) [
        | inr (x, bad) ↦ rw bad refl
        | inl (s, good) ↦
            let left = deliver-in_bytes frame (with_bytes rest h) world s good in
            rw good (
              process_loop-fuel (length h.in_bytes) (length s.0.in_bytes) s.0 s.1
                (rw left (omega (arith, (next_frame-append h.in_bytes [] frame rest e).1)))
                (omega arith))
      ]

-- ===== src/Noise/Fragment.antt =====
-- `decode_frame` on two pieces of the stream, and on both at once.
use wassupweb.Prelude.{
  ℕ, zero, suc, ◌+◌, ◌<◌, ◌≡◌, refl, sym, ap, ◌∙◌, inl, inr, false, Option, none, some, [], ◌++◌,
  arith, Option-cases, Bytes, length, Result, ◌>>=◌, >>=-eq-ok, ok-injective, ok,
}
use mathlib.Core.List.{append_assoc}
use wassupweb.Crypto.{Primitives}
use wassupweb.Wabinary.Node.{BinaryNode}
use wassupweb.Noise.State.{NoiseHandler, TransportState, transport_decrypt, generate_iv}
use wassupweb.Noise.Frames.{
  Frame, raw, stanza, next_frame, deliver_over, deliver, process_data, decode_frame,
}
use wassupweb.Noise.Stream.{next_frame-append}
use wassupweb.Noise.Cut.{
  with_bytes, IsBlind, set_bytes, deliver-set_bytes, deliver-in_bytes, process_end, process_round,
}

module _ (p : Primitives) (decode : Bytes → Result BinaryNode) {W : Type 0}
    (on_frame : Frame → NoiseHandler × W → Result (NoiseHandler × W)) (q : IsBlind on_frame) where
  abbrev run : NoiseHandler × W → Result (NoiseHandler × W)
  run = process_data p decode on_frame

  deliver_over-waiting :
      (o : Option TransportState) (frame : Bytes) (h : NoiseHandler) (world : W)
      (s : NoiseHandler × W)
      → deliver_over p decode on_frame o frame (h, world) ≡ ok s
      → s.0.waiting ≡ h.waiting
  unfolding deliver_over transport_decrypt
  deliver_over-waiting none frame h world s e = q.keeps (raw frame) h world s e
  deliver_over-waiting (some t) frame h world s e =
      let (plain, opened, rest) =
        >>=-eq-ok (p.gcm_decrypt t.dec_key (generate_iv t.read_counter) [] frame) _ e in
      let (decoded, read, called) = >>=-eq-ok (decode plain) _ rest in
      q.keeps (stanza decoded)
        (record h { transport = some (record t { read_counter = t.read_counter + 1 }) }) world s
        called

  deliver-waiting :
      (frame : Bytes) (h : NoiseHandler) (world : W) (s : NoiseHandler × W)
      → deliver p decode on_frame frame (h, world) ≡ ok s
      → s.0.waiting ≡ h.waiting
  unfolding deliver
  deliver-waiting frame h world s e = deliver_over-waiting h.transport frame h world s e

  -- One round of the loop on a buffer that goes on with `more`.
  round-append :
      (h : NoiseHandler) (world : W) (s : NoiseHandler × W) (frame rest more : Bytes)
      → next_frame h.in_bytes ≡ some (frame, rest)
      → deliver p decode on_frame frame (with_bytes rest h, world) ≡ ok s
      → run (with_bytes (h.in_bytes ++ more) h, world)
        ≡ run (with_bytes (s.0.in_bytes ++ more) s.0, s.1)
  unfolding with_bytes set_bytes
  round-append h world s frame rest more e good =
      let cut = (next_frame-append h.in_bytes more frame rest e).0 in
      let left = deliver-in_bytes p decode on_frame q frame (with_bytes rest h) world s good in
      let given : deliver p decode on_frame frame (with_bytes (rest ++ more) h, world)
          ≡ set_bytes p decode on_frame q (rest ++ more) s =
        deliver-set_bytes p decode on_frame q frame (rest ++ more) (with_bytes rest h) world
        ∙ ap (λ r. r >>= set_bytes p decode on_frame q (rest ++ more)) good in
      process_round p decode on_frame q (with_bytes (h.in_bytes ++ more) h) world frame
        (rest ++ more) cut
      ∙ ap (λ r. r >>= run) given
      ∙ ap (λ (x : Bytes). run (with_bytes (x ++ more) s.0, s.1)) (sym left)

  -- `more` arrives after the loop has run, or before it.
  process-append :
      (fuel : ℕ) (h : NoiseHandler) (world : W) (s : NoiseHandler × W) (more : Bytes)
      → length h.in_bytes < fuel
      → run (h, world) ≡ ok s
      → (run (with_bytes (h.in_bytes ++ more) h, world)
          ≡ run (with_bytes (s.0.in_bytes ++ more) s.0, s.1))
        × (s.0.waiting ≡ h.waiting)
  unfolding with_bytes
  process-append zero h world s more small e = (ground arith, ground arith)
  process-append (suc fuel) h world s more small e = elim (Option-cases (next_frame h.in_bytes)) [
    | inl stop ↦
        let same = ok-injective (sym (process_end p decode on_frame q h world stop) ∙ e) in
        (
          ap (λ (x : NoiseHandler × W). run (with_bytes (x.0.in_bytes ++ more) x.0, x.1)) same,
          ap (λ (x : NoiseHandler × W). x.0.waiting) (sym same),
        )
    | inr ((frame, rest), found) ↦
        let (t, good, after) =
          >>=-eq-ok (deliver p decode on_frame frame (with_bytes rest h, world)) _
            (sym (process_round p decode on_frame q h world frame rest found) ∙ e) in
        let left = deliver-in_bytes p decode on_frame q frame (with_bytes rest h) world t good in
        let shorter : length t.0.in_bytes < fuel =
          rw left (omega (arith, small, (next_frame-append h.in_bytes more frame rest found).1)) in
        let (same, kept) = process-append fuel t.0 t.1 s more shorter after in
        (
          round-append h world t frame rest more found good ∙ same,
          kept ∙ deliver-waiting frame (with_bytes rest h) world t good,
        )
  ]

  pub decode_frame-ready :
      (new_data : Bytes) (h : NoiseHandler) (world : W)
      → h.waiting ≡ false
      → decode_frame p decode on_frame new_data (h, world)
        ≡ run (with_bytes (h.in_bytes ++ new_data) h, world)
  unfolding decode_frame with_bytes
  decode_frame-ready new_data h world ready = rw (decode_frame, ready) refl

  -- Where the first piece is handled without an exception, the second piece after it gives the same
  -- handler, the same world and the same calls of the callback as both pieces in one: frames need not
  -- keep to the pieces in which the network delivers them. The handler is not waiting for its
  -- transport, and the callback neither reads nor changes the buffer.
  pub decode_frame-append :
      (first second : Bytes) (h : NoiseHandler) (world : W) (s : NoiseHandler × W)
      → h.waiting ≡ false
      → decode_frame p decode on_frame first (h, world) ≡ ok s
      → decode_frame p decode on_frame (first ++ second) (h, world)
        ≡ decode_frame p decode on_frame second s
  unfolding with_bytes
  decode_frame-append first second h world s ready e =
      let h' = with_bytes (h.in_bytes ++ first) h in
      let (same, kept) =
        process-append (suc (length h'.in_bytes)) h' world s second (omega arith)
          (sym (decode_frame-ready first h world ready) ∙ e) in
      decode_frame-ready (first ++ second) h world ready
      ∙ ap (λ (x : Bytes). run (with_bytes x h, world)) (sym (append_assoc h.in_bytes first second))
      ∙ same
      ∙ sym (decode_frame-ready second s.0 s.1 (kept ∙ ready))

-- ===== src/Noise/Delivery.antt =====
-- A frame from one end of the transport to the callback at the other end.
use wassupweb.Prelude.{
  ◌+◌, ◌<◌, ◌≡◌, refl, sym, ap, ◌∙◌, inl, inr, true, false, Option, some, [], ◌++◌, Bytes, length,
  Result, ◌>>=◌, Result-cases, ok,
}
use mathlib.Core.List.{append-nil}
use wassupweb.Crypto.{Primitives, IsCipher}
use wassupweb.Wabinary.Node.{BinaryNode}
use wassupweb.Noise.State.{
  NoiseHandler, TransportState, transport_encrypt, transport_decrypt, generate_iv, size_bytes,
}
use wassupweb.Noise.Frames.{
  Frame, stanza, seal, encode_frame, next_frame, deliver_over, deliver, process_data, decode_frame,
}
use wassupweb.Noise.Stream.{next_frame-size}
use wassupweb.Noise.Agreement.{Paired}
use wassupweb.Noise.Cut.{with_bytes, IsBlind, process_round, process_end, deliver-in_bytes}
use wassupweb.Noise.Fragment.{decode_frame-ready}

module _ (p : Primitives) (decode : Bytes → Result BinaryNode) {W : Type 0}
    (on_frame : Frame → NoiseHandler × W → Result (NoiseHandler × W)) (q : IsBlind on_frame) where
  encode_frame-sealed :
      (plain : Bytes) (a : NoiseHandler) (t : TransportState)
      → a.transport ≡ some t
      → a.sent_intro ≡ true
      → (encode_frame p plain a).0
        ≡ size_bytes (length (transport_encrypt p plain t).0) ++ (transport_encrypt p plain t).0
  unfolding encode_frame seal
  encode_frame-sealed plain a t e sent = rw (encode_frame, e, sent) refl

  -- One complete frame in the buffer and nothing behind it.
  process_single :
      (output : Bytes) (h : NoiseHandler) (world : W)
      → length output < 16777216
      → process_data p decode on_frame (with_bytes (size_bytes (length output) ++ output) h, world)
        ≡ deliver p decode on_frame output (with_bytes [] h, world)
  unfolding with_bytes
  process_single output h world small =
      let whole : next_frame (size_bytes (length output) ++ output) ≡ some (output, []) =
        ap (λ (x : Bytes). next_frame (size_bytes (length output) ++ x)) (sym (append-nil output))
        ∙ next_frame-size output [] small in
      process_round p decode on_frame q (with_bytes (size_bytes (length output) ++ output) h) world
        output [] whole
      ∙ after
    where
      after :
          (deliver p decode on_frame output (with_bytes [] h, world)
            >>= process_data p decode on_frame)
          ≡ deliver p decode on_frame output (with_bytes [] h, world)
      after = elim (Result-cases (deliver p decode on_frame output (with_bytes [] h, world))) [
        | inr (x, bad) ↦ rw bad refl
        | inl (s, good) ↦
            let left : s.0.in_bytes ≡ [] =
              deliver-in_bytes p decode on_frame q output (with_bytes [] h) world s good in
            rw good (
              process_end p decode on_frame q s.0 s.1
                (ap next_frame left ∙ (unfold next_frame in refl)))
      ]

  deliver-sealed :
      (plain : Bytes) (n : BinaryNode) (h : NoiseHandler) (s t : TransportState) (world : W)
      → IsCipher p
      → decode plain ≡ ok n
      → h.transport ≡ some t
      → Paired s t
      → deliver p decode on_frame (transport_encrypt p plain s).0 (h, world)
        ≡ on_frame
            (stanza n)
            (record h { transport = some (record t { read_counter = t.read_counter + 1 }) }, world)
  unfolding deliver deliver_over transport_encrypt transport_decrypt
  deliver-sealed plain n h s t world c read e pair =
      let opened : p.gcm_decrypt t.dec_key (generate_iv t.read_counter) []
            (transport_encrypt p plain s).0
          ≡ ok plain =
        rw (sym pair.key, sym pair.counter)
          (c.gcm_open s.enc_key (generate_iv s.write_counter) [] plain) in
      ap
        (λ (o : Option TransportState).
          deliver_over p decode on_frame o (transport_encrypt p plain s).0 (h, world))
        e
      ∙ rw (opened, read) refl

  -- A sealed text opens under its key, and the callback neither reads nor changes the buffer. The
  -- receiving end has nothing in its buffer, is not waiting, and its transport is paired with the
  -- sender's, which has sent its introduction; the sealed frame has fewer than 2 ^ 24 bytes. Then the
  -- frame that `encode_frame` makes of the bytes of a stanza reaches the callback as that stanza, once,
  -- and the read counter has moved on by one.
  pub decode_frame-encode_frame :
      (plain : Bytes) (n : BinaryNode) (a b : NoiseHandler) (s t : TransportState) (world : W)
      → IsCipher p
      → decode plain ≡ ok n
      → a.transport ≡ some s
      → a.sent_intro ≡ true
      → b.transport ≡ some t
      → b.waiting ≡ false
      → b.in_bytes ≡ []
      → Paired s t
      → length (transport_encrypt p plain s).0 < 16777216
      → decode_frame p decode on_frame (encode_frame p plain a).0 (b, world)
        ≡ on_frame
            (stanza n)
            (record b { transport = some (record t { read_counter = t.read_counter + 1 }) }, world)
  unfolding with_bytes
  decode_frame-encode_frame plain n a b s t world c read ea sent eb ready none_left pair small =
      decode_frame-ready p decode on_frame q (encode_frame p plain a).0 b world ready
      ∙ rw (none_left, encode_frame-sealed plain a s ea sent)
          (process_single (transport_encrypt p plain s).0 b world small)
      ∙ deliver-sealed plain n (with_bytes [] b) s t world c read eb pair
      ∙ ap
          (λ (x : Bytes). on_frame (stanza n) (
            record b {
              in_bytes = x;
              transport = some (record t { read_counter = t.read_counter + 1 });
            },
            world,
          ))
          (sym none_left)

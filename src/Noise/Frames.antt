-- ===== src/Noise/Frames.antt =====
-- wassupweb/utils/noise_handler.py: `encode_frame`, `_process_data`, `decode_frame`, `finish_init`.
-- The callback is a parameter: it works on the handler and on a world of its own.
use wassupweb.Prelude.{
  ℕ, zero, suc, ◌+◌, ◌*◌, true, false, Option, none, some, [], ◌∷◌, ◌++◌, ltb, if◌then◌else◌, Bytes,
  length, take, drop, Result, ◌>>=◌, ok,
}
use wassupweb.Crypto.{Primitives}
use wassupweb.Wabinary.Node.{BinaryNode}
use wassupweb.Noise.State.{
  NoiseHandler, TransportState, transport_encrypt, transport_decrypt, size_bytes,
}
use wassupweb.Noise.Handshake.{start_transport}

-- What `on_frame` is given.
pub data Frame : Type 0 where
  raw : Bytes → Frame
  stanza : BinaryNode → Frame

-- `if self._transport: output = self._transport.encrypt(output)`
unfoldable pub seal : Primitives → Bytes → Option TransportState → Bytes × Option TransportState
seal p bytes none = (bytes, none)
seal p bytes (some t) = let (sealed, t') = transport_encrypt p bytes t in (sealed, some t')

unfoldable pub encode_frame : Primitives → Bytes → NoiseHandler → Bytes × NoiseHandler
unfolding seal
encode_frame p bytes h =
    let (output, t) = seal p bytes h.transport in
    let intro = if h.sent_intro then [] else h.intro_header in
    (intro ++ (size_bytes (length output) ++ output), record h { transport = t; sent_intro = true })

-- The first frame that is complete, and the bytes behind it.
unfoldable pub next_frame : Bytes → Option (Bytes × Bytes)
next_frame (a ∷ b ∷ c ∷ rest) =
    let size = a * 65536 + b * 256 + c in
    if ltb (length rest) size then none else some (take size rest, drop size rest)
next_frame _ = none

module _ (p : Primitives) (decode : Bytes → Result BinaryNode) {W : Type 0}
    (on_frame : Frame → NoiseHandler × W → Result (NoiseHandler × W)) where
  -- `if self._transport`, and the call of `on_frame`.
  unfoldable pub deliver_over :
      Option TransportState → Bytes → NoiseHandler × W → Result (NoiseHandler × W)
  deliver_over none frame (h, world) = on_frame (raw frame) (h, world)
  deliver_over (some t) frame (h, world) =
      let (opened, t') = transport_decrypt p frame t in
      do
        plain ← opened
        decoded ← decode plain
        on_frame (stanza decoded) (record h { transport = some t' }, world)

  -- The body of the loop behind the deletion of the frame from the buffer.
  unfoldable pub deliver : Bytes → NoiseHandler × W → Result (NoiseHandler × W)
  unfolding deliver_over
  deliver frame (h, world) = deliver_over h.transport frame (h, world)

  -- `while True`: `fuel` frames at most.
  unfoldable pub process_loop : ℕ → NoiseHandler × W → Result (NoiseHandler × W)
  process_loop zero s = ok s
  process_loop (suc fuel) (h, world) = elim (next_frame h.in_bytes) [
    | none ↦ ok (h, world)
    | some (frame, rest) ↦
        (deliver frame (record h { in_bytes = rest }, world) >>= process_loop fuel)
  ]

  -- Every frame takes three bytes of the buffer, so its length is fuel enough.
  unfoldable pub process_data : NoiseHandler × W → Result (NoiseHandler × W)
  process_data (h, world) = process_loop (length h.in_bytes) (h, world)

  unfoldable pub decode_frame : Bytes → NoiseHandler × W → Result (NoiseHandler × W)
  decode_frame new_data (h, world) =
      let buffered = record h { in_bytes = h.in_bytes ++ new_data } in
      let processed = process_data (buffered, world) in
      if h.waiting then ok (record buffered { pending = true }, world) else processed

  -- `on_frame` here is the callback that `decode_frame` kept.
  unfoldable pub finish_init : NoiseHandler × W → Result (NoiseHandler × W)
  finish_init (h, world) =
      let started = start_transport p h in
      let processed = do
        (h', world') ← process_data (started, world)
        ok (record h' { pending = false }, world')
      in if h.pending then processed else ok (started, world)

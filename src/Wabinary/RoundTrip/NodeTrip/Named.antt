-- ===== src/Wabinary/RoundTrip/NodeTrip/Named.antt =====
-- One node around its content.
use mathlib.Core.List.{append_assoc}
use wassupweb.Prelude.{
  ℕ, zero, suc, ◌+◌, ◌*◌, ◌/◌, ◌%◌, ◌≤◌, ◌<◌, ◌≡◌, ap, ◌∙◌, true, false, [], ◌∷◌, ◌++◌, arith, ◌==◌,
  Bytes, length, length-append, ok,
}
use wassupweb.Text.{Text}
use wassupweb.Wabinary.Node.{
  BinaryNode, node, Content, nothing, text, bytes, children, Nodes, Attrs, Tables,
}
use wassupweb.Wabinary.Encode.{
  count_valid, count_nodes, content_slot, write_head, encode_inner, encode_content, encode_nodes,
}
use wassupweb.Wabinary.Encode.Write.{write_list_start}
use wassupweb.Wabinary.Decode.{
  read_attrs, read_nodes, read_content, read_body, read_named, decode_step, decode_node,
}
use wassupweb.Wabinary.Decode.Reader.{Read, read_byte, read_next}
use wassupweb.Wabinary.RoundTrip.Canonical.{IsTable, Canonical}
use wassupweb.Wabinary.RoundTrip.TextTrip.{read_next-write_text}
use wassupweb.Wabinary.RoundTrip.NodeTrip.Received.{
  kept, received, received_content, received_nodes, IsDict, CanonicalAttrs,
}
use wassupweb.Wabinary.RoundTrip.NodeTrip.Attributes.{attrs_trip}
use wassupweb.Wabinary.RoundTrip.NodeTrip.Contents.{list_start_tag, list_size_behind}

write_list_start-pos : (n : ℕ) → 1 ≤ length (write_list_start n)
unfolding write_list_start
write_list_start-pos n = ground arith

module _ (t : Tables) (table : IsTable t) where
  -- The bytes of a node, of the content of a node and of children, and how they are read.
  abbrev pub NodeTrip : BinaryNode → Type 0
  NodeTrip n =
      (b : Bytes) × (encode_inner t n ≡ ok b)
      × (1 ≤ length b)
      × ((fuel : ℕ) (s : Bytes)
          → length b ≤ fuel
          → decode_node t fuel (b ++ s) ≡ ok (received t n, s))

  abbrev pub ContentTrip : Content → Type 0
  ContentTrip c =
      (b : Bytes) × (encode_content t c ≡ ok b)
      × ((fuel m : ℕ) (s : Bytes)
          → length b ≤ fuel
          → read_body t (decode_node t fuel) (2 * m + 1 + content_slot c) (b ++ s)
            ≡ ok (received_content t c, s))

  abbrev pub NodesTrip : Nodes → Type 0
  NodesTrip ns =
      (b : Bytes) × (encode_nodes t ns ≡ ok b)
      × ((fuel : ℕ) (s : Bytes)
          → length b ≤ fuel
          → read_nodes (decode_node t fuel) (count_nodes ns) (b ++ s) ≡ ok (received_nodes t ns, s))

  -- With a content the size of the list is even.
  pub read_body-some :
      (read : Read BinaryNode) (m : ℕ) (s : Bytes)
      → read_body t read (2 * m + 1 + 1) s ≡ read_content t read s
  unfolding read_body
  read_body-some read m s = let even : ((2 * m + 1 + 1) % 2 == 0) ≡ true = ground arith in rw even

  pub read_body-none :
      (read : Read BinaryNode) (m : ℕ) (s : Bytes)
      → read_body t read (2 * m + 1 + 0) s ≡ ok (nothing, s)
  unfolding read_body
  read_body-none read m s = let odd : ((2 * m + 1 + 0) % 2 == 0) ≡ false = ground arith in rw odd

  step_at :
      (read : Read BinaryNode) (size : ℕ) (header : Text) (b s : Bytes)
      → size < 65536
      → read_next t b ≡ ok (header, s)
      → decode_step t read (write_list_start size ++ b) ≡ read_named t read size header s
  unfolding decode_step read_byte
  step_at read size header b s h back =
      let (tag, r, e, listed) = list_start_tag size b in
      rw e (rw (list_size_behind size b tag r e h, back))

  named_at :
      (read : Read BinaryNode) (m : ℕ) (slot : ℕ) (c : ℕ) (tag : Text) (attrs : Attrs)
      (content : Content) (b s r : Bytes)
      → slot < 2
      → read_attrs t m [] b ≡ ok (attrs, s)
      → read_body t read (2 * m + 1 + slot) s ≡ ok (content, r)
      → read_named t read (2 * m + 1 + slot) (c ∷ tag) b ≡ ok (node (c ∷ tag) attrs content, r)
  unfolding read_named
  named_at read m slot c tag attrs content b s r h back_a back_c =
      let size : 2 * m + 1 + slot ≡ suc (2 * m + slot) = omega arith in
      let half : (2 * m + slot) / 2 ≡ m = omega arith in
      let body : read_body t read (suc (2 * m + slot)) s ≡ ok (content, r) = rw size at back_c in
      rw size (rw (half, back_a, body))

  slot_small : (content : Content) → content_slot content < 2
  unfolding content_slot
  slot_small nothing = omega arith
  slot_small (text v) = omega arith
  slot_small (bytes b) = omega arith
  slot_small (children ns) = omega arith

  -- It is enough to look at one step of the decoder.
  decode_node-step :
      (b : Bytes) (n : BinaryNode)
      → 1 ≤ length b
      → ((fuel : ℕ) (s : Bytes)
          → length b ≤ suc fuel
          → decode_step t (decode_node t fuel) (b ++ s) ≡ ok (n, s))
      → (fuel : ℕ) (s : Bytes) → length b ≤ fuel
      → decode_node t fuel (b ++ s) ≡ ok (n, s)
  unfolding decode_node
  decode_node-step b n some_byte h zero s le = absurd (omega arith)
  decode_node-step b n some_byte h (suc fuel) s le = h fuel s le

  pub named_trip :
      (c : ℕ) (tag : Text) (attrs : Attrs) (content : Content)
      → Canonical t (c ∷ tag)
      → CanonicalAttrs t attrs
      → IsDict attrs
      → 2 * count_valid attrs + 1 + content_slot content < 65536
      → ContentTrip content
      → NodeTrip (node (c ∷ tag) attrs content)
  unfolding encode_inner write_head received
  named_trip c tag attrs content h ha dict small (cb, wrote_c, back_c) =
      let (nb, wrote_n, back_n) = read_next-write_text t table (c ∷ tag) h in
      let (ab, wrote_a, back_a) = attrs_trip t table attrs ha dict in
      let m : ℕ = count_valid attrs in
      let start : Bytes = write_list_start (2 * m + 1 + content_slot content) in
      let b : Bytes = (start ++ (nb ++ ab)) ++ cb in
      let long : length b ≡ length start + length (nb ++ ab) + length cb =
        length-append (start ++ (nb ++ ab)) cb
        ∙ ap (λ (k : ℕ). k + length cb) (length-append start (nb ++ ab)) in
      let pos : 1 ≤ length start = write_list_start-pos (2 * m + 1 + content_slot content) in
      (
        b,
        rw (wrote_n, wrote_a, wrote_c),
        omega (arith, long, pos),
        decode_node-step b _ (omega (arith, long, pos)) (λ fuel s le.
            rw (append_assoc (start ++ (nb ++ ab)), append_assoc start, append_assoc nb)
              (step_at (decode_node t fuel) (2 * m + 1 + content_slot content) (c ∷ tag)
                  (nb ++ (ab ++ (cb ++ s))) (ab ++ (cb ++ s)) small (back_n (ab ++ (cb ++ s)))
                ∙ named_at (decode_node t fuel) m (content_slot content) c tag (kept attrs) _
                    (ab ++ (cb ++ s)) (cb ++ s) s (slot_small content) (back_a [] (cb ++ s) tt)
                    (back_c fuel m s (omega (arith, long, pos))))),
      )

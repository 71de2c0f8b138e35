-- ===== src/Wabinary/RoundTrip/NodeTrip/Contents.antt =====
-- The content of a node that has no children.
use wassupweb.Prelude.{
  ℕ, ◌<◌, ◌≡◌, refl, ◌∙◌, inl, inr, true, ◌∷◌, ◌++◌, ltb, ◌==◌, Bool-cases, Bytes, length, ◌>>=◌,
  ok,
}
use wassupweb.Text.{Text}
use wassupweb.Wabinary.Node.{BinaryNode, text, bytes, children, Tables}
use wassupweb.Wabinary.Encode.Write.{write_text, write_list_start}
use wassupweb.Wabinary.Decode.{
  is_list_tag, read_raw, read_value, read_children, content_of, read_content, read_list_size,
  read_nodes,
}
use wassupweb.Wabinary.Decode.Reader.{Read, read_byte, read_next}
use wassupweb.Wabinary.RoundTrip.Canonical.{IsTable, Canonical}
use wassupweb.Wabinary.RoundTrip.TextTrip.{text_trip}
use wassupweb.Wabinary.RoundTrip.Shape.{Shape, tagged, sized, IsTextTag}
use wassupweb.Wabinary.RoundTrip.Sizes.{
  SizeForm, in_byte, in_20_bits, in_32_bits, read_bytes-append, read_int20-back, read_int4-back,
  read_list_size-back,
}
use wassupweb.Wabinary.RoundTrip.NodeTrip.Received.{received_content}

-- A list header starts with a list tag.
pub list_start_tag :
    (n : ℕ) (s : Bytes)
    → (tag : ℕ) × (r : Bytes) × (write_list_start n ++ s ≡ tag ∷ r) × (is_list_tag tag ≡ true)
unfolding write_list_start is_list_tag
list_start_tag n s = elim (Bool-cases (n == 0)) [
  | inl empty ↦ rw empty (_, _, refl, refl)
  | inr some_items ↦ elim (Bool-cases (ltb n 256)) [
    | inl short ↦ rw (some_items, short) (_, _, refl, refl)
    | inr long ↦ rw (some_items, long) (_, _, refl, refl)
  ]
]

pub list_size_behind :
    (n : ℕ) (s : Bytes) (tag : ℕ) (r : Bytes)
    → write_list_start n ++ s ≡ tag ∷ r
    → n < 65536
    → read_list_size tag r ≡ ok (n, s)
unfolding read_byte
list_size_behind n s tag r e h = rw e at (read_list_size-back n s h)

module _ (t : Tables) (read : Read BinaryNode) where
  -- Raw bytes behind their length are read as bytes.
  pub sized_content :
      (v size s : Bytes)
      → SizeForm (length v) size
      → read_content t read ((size ++ v) ++ s) ≡ ok (bytes v, s)
  unfolding read_content content_of read_byte read_raw is_list_tag
  sized_content v size s (in_byte h) = rw (read_bytes-append v s)
  sized_content v size s (in_20_bits lo h) =
      rw (read_int20-back (length v) (v ++ s) h, read_bytes-append v s)
  sized_content v size s (in_32_bits lo h) =
      rw (read_int4-back (length v) (v ++ s) h, read_bytes-append v s)

  content_of-text :
      (tag : ℕ) (s : Bytes) → IsTextTag tag → content_of t read tag s ≡ read_value t tag s
  unfolding content_of is_list_tag
  content_of-text tag s h =
      rw (h.no_empty, h.no_list_8, h.no_list_16, h.no_binary_8, h.no_binary_20, h.no_binary_32)

  tagged_content :
      (v : Text) (tag : ℕ) (s r : Bytes)
      → IsTextTag tag
      → read_next t (tag ∷ s) ≡ ok (v, r)
      → read_content t read (tag ∷ s) ≡ ok (text v, r)
  unfolding read_content read_next read_byte read_value
  tagged_content v tag s r h back = content_of-text tag s h ∙ rw back

  shaped_content :
      (v : Text) (b s : Bytes)
      → Shape t v b
      → read_next t (b ++ s) ≡ ok (v, s)
      → read_content t read (b ++ s) ≡ ok (received_content t (text v), s)
  unfolding received_content
  shaped_content v b s (tagged tag r not_raw h) back =
      rw not_raw (tagged_content v tag (r ++ s) s h back)
  shaped_content v b s (sized size raw form) back = rw raw (sized_content v size s form)

  -- A list tag with the size, and then the children.
  pub children_content :
      (n : ℕ) (s : Bytes)
      → n < 65536
      → read_content t read (write_list_start n ++ s)
        ≡ (read_nodes read n s >>= λ r. ok (children r.0, r.1))
  unfolding read_content content_of read_byte read_children
  children_content n s h =
      let (tag, r, e, listed) = list_start_tag n s in
      rw (e, listed) (rw (list_size_behind n s tag r e h))

pub text_content_trip :
    (t : Tables) (table : IsTable t) (v : Text)
    → Canonical t v
    → (b : Bytes) × (write_text t v ≡ ok b)
      × ((read : Read BinaryNode) (s : Bytes)
          → read_content t read (b ++ s) ≡ ok (received_content t (text v), s))
text_content_trip t table v h =
    let (b, wrote, back, shape) = text_trip t table v h in
    (b, wrote, λ read s. shaped_content t read v b s shape (back s))

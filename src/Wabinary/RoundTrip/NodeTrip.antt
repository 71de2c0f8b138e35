-- ===== src/Wabinary/RoundTrip/NodeTrip.antt =====
-- Whole nodes: `decode_binary_node` gives back what `encode_binary_node` wrote.
pub mod Received
mod Attributes
mod Contents
mod Named
use mathlib.Core.List.{append_assoc, append-nil}
use wassupweb.Prelude.{
  ℕ, zero, suc, ◌+◌, ◌-◌, ◌*◌, ◌/◌, ◌%◌, ◌^◌, ◌≤◌, ◌<◌, min, max, bit_and, bit_or, String, ◌≡◌,
  refl, sym, ap, ◌∙◌, ◌≢◌, ◌↔◌, ◌⊎◌, inl, inr, Bool, true, false, not, ◌&&◌, ◌||◌, Option, none,
  some, List, [], ◌∷◌, ◌++◌, map, arith, ltb, leb, ◌==◌, if◌then◌else◌, ltb→lt, lt→ltb, le→ltb,
  ==_iff, Bool-cases, Option-cases, ltb→le, IsByte, Bytes, All, All-append, length, get_elem?, take,
  drop, replicate, length-append, length-take, length-drop, length-replicate, take-length-append,
  drop-length-append, drop-add, take-length, Exception, Result, ◌>>=◌, ◌>>◌, ok, err, value_error,
  runtime_error, type_error, index_error, struct_error, key_error, recursion_error,
}
use wassupweb.Text.{Text}
use wassupweb.Wabinary.Node.{
  BinaryNode, node, Content, nothing, text, bytes, children, Nodes, nil, cons, Attrs, Tables,
}
use wassupweb.Wabinary.Encode.{
  count_valid, write_attrs, is_valid, count_nodes, content_slot, write_head, encode_inner,
  encode_content, encode_nodes, encode_binary_node,
}
use wassupweb.Wabinary.Encode.Write.{write_list_start, write_text, write_byte_length}
use wassupweb.Wabinary.Decode.{
  read_list_size, read_attrs, read_nodes, read_content, read_body, read_named, decode_step,
  decode_node, decode_decompressed_binary_node, decompressing_if_required, decode_binary_node,
}
use wassupweb.Wabinary.Decode.Reader.{Read, read_byte, read_next}
use wassupweb.Wabinary.RoundTrip.Canonical.{IsTable, Canonical}
use wassupweb.Wabinary.RoundTrip.TextTrip.{read_next-write_text}
use wassupweb.Wabinary.RoundTrip.Sizes.{write_byte_length-SizeForm, read_list_size-back}
use Received.{
  kept, received, received_content, received_nodes, IsDict, CanonicalAttrs, CanonicalNode, named,
  CanonicalContent, no_content, text_content, raw_content, child_nodes, CanonicalNodes, no_nodes,
  skipped, written,
}
use Attributes.{attrs_trip}
use Contents.{list_start_tag, list_size_behind, sized_content, children_content, text_content_trip}
use Named.{NodeTrip, ContentTrip, NodesTrip, named_trip, read_body-some, read_body-none}

module _ (t : Tables) (table : IsTable t) where
  nothing_trip : ContentTrip t table nothing
  unfolding encode_content content_slot received_content
  nothing_trip = ([], refl, λ fuel m s le. read_body-none t table (decode_node t fuel) m s)

  text_trip : (v : Text) → Canonical t v → ContentTrip t table (text v)
  unfolding encode_content content_slot
  text_trip v h =
      let (b, wrote, back) = text_content_trip t table v h in
      (
        b,
        wrote,
        λ fuel m s le.
            read_body-some t table (decode_node t fuel) m (b ++ s) ∙ back (decode_node t fuel) s,
      )

  raw_trip : (v : Bytes) → length v < 4294967296 → ContentTrip t table (bytes v)
  unfolding encode_content content_slot received_content
  raw_trip v small =
      let (size, e, form) = write_byte_length-SizeForm (length v) small in
      (
        size ++ v,
        rw e,
        λ fuel m s le.
            read_body-some t table (decode_node t fuel) m ((size ++ v) ++ s)
            ∙ sized_content t (decode_node t fuel) v size s form,
      )

  children_trip :
      (ns : Nodes)
      → count_nodes ns < 65536
      → NodesTrip t table ns
      → ContentTrip t table (children ns)
  unfolding encode_content content_slot received_content
  children_trip ns small (b, wrote, back) =
      let start : Bytes = write_list_start (count_nodes ns) in
      (
        start ++ b,
        rw wrote,
        λ fuel m s le. rw append_assoc (
            read_body-some t table (decode_node t fuel) m (start ++ (b ++ s))
            ∙ children_content t (decode_node t fuel) (count_nodes ns) (b ++ s) small
            ∙ rw (back fuel s (omega (arith, length-append start b)))),
      )

  nil-NodesTrip : NodesTrip t table nil
  unfolding encode_nodes count_nodes received_nodes read_nodes
  nil-NodesTrip = ([], refl, λ fuel s le. refl)

  skipped_trip :
      (attrs : Attrs) (content : Content) (ns : Nodes)
      → NodesTrip t table ns
      → NodesTrip t table (cons (node [] attrs content) ns)
  unfolding encode_nodes count_nodes received_nodes is_valid
  skipped_trip attrs content ns trip = trip

  read_cons :
      (read : Read BinaryNode) (count : ℕ) (b s r : Bytes) (n : BinaryNode) (ns : Nodes)
      → read b ≡ ok (n, s)
      → read_nodes read count s ≡ ok (ns, r)
      → read_nodes read (suc count) b ≡ ok (cons n ns, r)
  unfolding read_nodes
  read_cons read count b s r n ns h hs = rw (h, hs)

  written_trip :
      (n : BinaryNode) (ns : Nodes)
      → is_valid n ≡ true
      → NodeTrip t table n
      → NodesTrip t table ns
      → NodesTrip t table (cons n ns)
  unfolding encode_nodes count_nodes received_nodes
  written_trip n ns valid (nb, wrote_n, pos, back_n) (b, wrote, back) = (
    nb ++ b,
    rw (valid, wrote_n, wrote),
    λ fuel s le.
        rw (valid, append_assoc nb)
          (read_cons (decode_node t fuel) (count_nodes ns) (nb ++ (b ++ s)) (b ++ s) s
            (received t n) (received_nodes t ns)
            (back_n fuel (b ++ s) (omega (arith, length-append nb b)))
            (back fuel s (omega (arith, length-append nb b)))),
  )

  CanonicalNode-valid : (n : BinaryNode) → CanonicalNode t n → is_valid n ≡ true
  unfolding is_valid
  CanonicalNode-valid n (named h ha dict small hc) = refl

mutual
  node_trip :
      (t : Tables) (table : IsTable t) {n : BinaryNode} → CanonicalNode t n → NodeTrip t table n
  node_trip t table (named {c} {tag} {attrs} {content} h ha dict small hc) =
      named_trip t table c tag attrs content h ha dict small (content_trip t table hc)

  content_trip :
      (t : Tables) (table : IsTable t) {c : Content} → CanonicalContent t c → ContentTrip t table c
  content_trip t table no_content = nothing_trip t table
  content_trip t table (text_content {v} h) = text_trip t table v h
  content_trip t table (raw_content {b} small) = raw_trip t table b small
  content_trip t table (child_nodes {ns} small h) =
      children_trip t table ns small (nodes_trip t table h)

  nodes_trip :
      (t : Tables) (table : IsTable t) {ns : Nodes} → CanonicalNodes t ns → NodesTrip t table ns
  nodes_trip t table no_nodes = nil-NodesTrip t table
  nodes_trip t table (skipped {attrs} {content} {ns} h) =
      skipped_trip t table attrs content ns (nodes_trip t table h)
  nodes_trip t table (written {n} {ns} hn h) =
      written_trip t table n ns (CanonicalNode-valid t table n hn) (node_trip t table hn)
        (nodes_trip t table h)

-- Where the token tables agree on every text but the empty one, as the program's do: a canonical node
-- (texts that the format keeps, keys that differ, sizes that fit) is encoded, and
-- `decode_binary_node` gives it back
-- without the attributes that have no value and the children that have no tag, and with bytes for
-- a content that was a text written as raw bytes. Nothing is inflated.
pub decode_binary_node-encode_binary_node :
    (t : Tables) (n : BinaryNode) (inflate : Bytes → Result Bytes)
    → IsTable t
    → CanonicalNode t n
    → (encode_binary_node t n >>= decode_binary_node inflate t) ≡ ok (received t n)
unfolding encode_binary_node decode_binary_node decompressing_if_required
    decode_decompressed_binary_node
decode_binary_node-encode_binary_node t n inflate table h =
    let (b, wrote, pos, back) = node_trip t table h in
    let all : decode_node t (suc (length b)) b ≡ ok (received t n, []) =
      ap (decode_node t (suc (length b))) (sym (append-nil b))
      ∙ back (suc (length b)) [] (omega arith) in
    rw wrote (rw all)

-- ===== src/Wabinary/RoundTrip/NodeTrip/Received.antt =====
-- The nodes that survive the format, and what comes back for them.
use wassupweb.Prelude.{
  ℕ, ◌+◌, ◌*◌, ◌<◌, ◌≡◌, false, Option, none, some, [], ◌∷◌, if◌then◌else◌, Bytes, All, length,
}
use wassupweb.Text.{Text, text_eq}
use wassupweb.Wabinary.Node.{
  BinaryNode, node, Content, nothing, text, bytes, children, Nodes, nil, cons, Attrs, Tables,
}
use wassupweb.Wabinary.Encode.{count_valid, count_nodes, content_slot, is_valid}
use wassupweb.Wabinary.RoundTrip.Canonical.{Canonical}
use wassupweb.Wabinary.RoundTrip.Shape.{is_raw}

-- The attributes with a value.
unfoldable pub kept : Attrs → Attrs
kept [] = []
kept ((k, none) ∷ attrs) = kept attrs
kept ((k, some v) ∷ attrs) = (k, some v) ∷ kept attrs

-- Attributes with no value and children with no tag are left out, and a text that was written as
-- raw bytes comes back as bytes.
unfoldable mutual
  unfolding is_valid is_raw kept

  pub received : Tables → BinaryNode → BinaryNode
  received t (node tag attrs content) = node tag (kept attrs) (received_content t content)

  pub received_content : Tables → Content → Content
  received_content t nothing = nothing
  received_content t (text v) = if is_raw t v then bytes v else text v
  received_content t (bytes b) = bytes b
  received_content t (children ns) = children (received_nodes t ns)

  pub received_nodes : Tables → Nodes → Nodes
  received_nodes t nil = nil
  received_nodes t (cons n ns) =
      let first = received t n in
      let rest = received_nodes t ns in if is_valid n then cons first rest else rest

-- The keys of a `dict` are distinct.
abbrev pub IsApart : Text → Attrs → Type 0
IsApart k attrs = All (λ (p : Text × Option Text). text_eq k p.0 ≡ false) attrs

abbrev pub IsDict : Attrs → Type 0
IsDict [] = Unit
IsDict ((k, o) ∷ attrs) = IsApart k attrs × IsDict attrs

-- Keys and values of the attributes that are written.
abbrev pub CanonicalAttrs : Tables → Attrs → Type 0
CanonicalAttrs t [] = Unit
CanonicalAttrs t ((k, none) ∷ attrs) = CanonicalAttrs t attrs
CanonicalAttrs t ((k, some v) ∷ attrs) = Canonical t k × Canonical t v × CanonicalAttrs t attrs

-- Nodes whose tag, keys, values and texts are canonical and whose sizes fit their fields.
mutual
  pub data CanonicalNode (t : Tables) : BinaryNode → Type 0 where
    named :
        {c : ℕ} {tag : Text} {attrs : Attrs} {content : Content}
        → Canonical t (c ∷ tag)
        → CanonicalAttrs t attrs
        → IsDict attrs
        → 2 * count_valid attrs + 1 + content_slot content < 65536
        → CanonicalContent t content
        → CanonicalNode t (node (c ∷ tag) attrs content)

  pub data CanonicalContent (t : Tables) : Content → Type 0 where
    no_content : CanonicalContent t nothing
    text_content : {v : Text} → Canonical t v → CanonicalContent t (text v)
    raw_content : {b : Bytes} → length b < 4294967296 → CanonicalContent t (bytes b)
    child_nodes :
        {ns : Nodes}
        → count_nodes ns < 65536
        → CanonicalNodes t ns
        → CanonicalContent t (children ns)

  pub data CanonicalNodes (t : Tables) : Nodes → Type 0 where
    no_nodes : CanonicalNodes t nil
    skipped :
        {attrs : Attrs} {content : Content} {ns : Nodes}
        → CanonicalNodes t ns
        → CanonicalNodes t (cons (node [] attrs content) ns)
    written :
        {n : BinaryNode} {ns : Nodes}
        → CanonicalNode t n
        → CanonicalNodes t ns
        → CanonicalNodes t (cons n ns)

-- ===== src/Tests/Formats.antt =====
-- The binary format, addresses and derived keys.
use wassupweb.Prelude.{
  ◌≤◌, ◌<◌, ◌≡◌, refl, sym, inl, inr, false, Option, none, some, List, [], ◌∷◌, ◌++◌, arith,
  if◌then◌else◌, Bool-cases, Bytes, All, length, get_elem?, ◌>>=◌, ok, err, value_error,
}
use wassupweb.Text.{Text, ascii, text_eq, text_eq_iff, split_at}
use wassupweb.Crypto.Wrappers.{hkdf, length-hkdf}
use wassupweb.Tests.Toy.{toy, toy-IsDigest}
use wassupweb.Wabinary.Node.{
  BinaryNode, node, nothing, bytes, children, nil, cons, Token, single, double, Tables,
}
use wassupweb.Wabinary.Jid.{
  FullJid, jid_decode, decode_parts, first_piece, device_of, domain_of, agent_domain,
}
use wassupweb.Wabinary.Encode.Write.{write_text}
use wassupweb.Wabinary.Decode.Reader.{read_next}
use wassupweb.Wabinary.RoundTrip.Canonical.{IsTable, Canonical, token}
use wassupweb.Wabinary.RoundTrip.TextTrip.{read_next-write_text}
use wassupweb.Wabinary.Encode.{count_valid, is_valid, count_nodes, content_slot, encode_binary_node}
use wassupweb.Wabinary.Decode.{decode_binary_node}
use wassupweb.Wabinary.RoundTrip.NodeTrip.{decode_binary_node-encode_binary_node}
use wassupweb.Wabinary.RoundTrip.NodeTrip.Received.{
  received, CanonicalNode, named, raw_content, child_nodes, no_nodes, skipped, written,
}
use wassupweb.Wabinary.Query.{get_binary_node_child, get_all_binary_node_children, tag_of}
use wassupweb.Wabinary.Query.First.{IsFirst, get_binary_node_child-IsFirst}

-- The first entries of the program's tables, with the empty text at place 0.
abbrev word : Text
word = ascii "type"

abbrev rare : Text
rare = ascii "read-self"

abbrev entries : List (Text × Token)
entries =
    ([], single 0)
    ∷ (ascii "xmlstreamstart", single 1)
    ∷ (ascii "xmlstreamend", single 2)
    ∷ (ascii "s.whatsapp.net", single 3)
    ∷ (word, single 4)
    ∷ (rare, double 0 0)
    ∷ (ascii "active", double 0 1)
    ∷ []

abbrev look : List (Text × Token) → Text → Option Token
look [] v = none
look ((w, k) ∷ items) v = if text_eq w v then some k else look items v

abbrev tables : Tables
tables = record {
  single_tokens =
      [] ∷ ascii "xmlstreamstart" ∷ ascii "xmlstreamend" ∷ ascii "s.whatsapp.net" ∷ word ∷ [];
  double_tokens = (rare ∷ ascii "active" ∷ []) ∷ [];
  token_map = look entries;
}

-- An entry stands at its place; nothing is asked of the empty text.
abbrev IsPlaced : Text → Token → Type 0
IsPlaced [] k = Unit
IsPlaced (c ∷ v) (single i) =
    (1 ≤ i) × (i < length tables.single_tokens) × (get_elem? tables.single_tokens i ≡ some (c ∷ v))
IsPlaced (c ∷ v) (double d i) =
    (dictionary : List Text) × (d < 4)
    × (i < 256)
    × (get_elem? tables.double_tokens d ≡ some dictionary)
    × (get_elem? dictionary i ≡ some (c ∷ v))

look-IsPlaced :
    (items : List (Text × Token)) (v : Text) (k : Token)
    → All (λ (e : Text × Token). IsPlaced e.0 e.1) items
    → look items v ≡ some k
    → IsPlaced v k
look-IsPlaced [] v k h e = absurd (cc)
look-IsPlaced ((w, j) ∷ items) v k (here, h) e = elim (Bool-cases (text_eq w v)) [
  | inl same ↦
      let first : Path (Option Token) (some j) (some k) = rw same at e in
      moved w v j k ((text_eq_iff w v).0 same) first here
  | inr other ↦ look-IsPlaced items v k h (rw other at e)
]
  where
    moved :
        (w v : Text) (j k : Token)
        → w ≡ v
        → Path (Option Token) (some j) (some k)
        → IsPlaced w j
        → IsPlaced v k
    moved w v j k e f h = let same : j ≡ k = cc in rw (sym e, sym same) h

entries-IsPlaced : All (λ (e : Text × Token). IsPlaced e.0 e.1) entries
entries-IsPlaced = (
  tt,
  (
    (omega arith, omega arith, refl),
    (
      (omega arith, omega arith, refl),
      (
        (omega arith, omega arith, refl),
        (
          (omega arith, omega arith, refl),
          (
            (rare ∷ ascii "active" ∷ [], omega arith, omega arith, refl, refl),
            ((rare ∷ ascii "active" ∷ [], omega arith, omega arith, refl, refl), tt),
          ),
        ),
      ),
    ),
  ),
)

tables-IsTable : IsTable tables
tables-IsTable = record {
  small = omega arith;
  single_found = λ c v i e. look-IsPlaced entries (c ∷ v) (single i) entries-IsPlaced e;
  double_found = λ c v d i e. look-IsPlaced entries (c ∷ v) (double d i) entries-IsPlaced e;
}

read_next-write_text_example :
    (bytes : Bytes) × (write_text tables word ≡ ok bytes)
    × ((s : Bytes) → read_next tables (bytes ++ s) ≡ ok (word, s))
unfolding text_eq
read_next-write_text_example =
    read_next-write_text tables tables-IsTable word (token b't' (ascii "ype") (single 4) refl)

abbrev address : FullJid
address = record { user = ascii "1"; server = ascii "g.us"; device = none; domain_type = 0 }

decoded : jid_decode (ascii "1@g.us") ≡ ok (some address)
unfolding jid_decode decode_parts first_piece device_of domain_of agent_domain split_at text_eq
decoded = refl

length-hkdf_example :
    (64 ≤ 8160 → (key : Bytes) × (hkdf toy (1 ∷ 2 ∷ []) 64 [] [] ≡ ok key) × (length key ≡ 64))
    × (8160 < 64
        → hkdf toy (1 ∷ 2 ∷ []) 64 [] [] ≡ err (value_error "bytes must be in range(0, 256)"))
length-hkdf_example = length-hkdf toy (1 ∷ 2 ∷ []) 64 [] [] toy-IsDigest

abbrev leaf : Text → BinaryNode
leaf tag = node tag [] nothing

abbrev family : BinaryNode
family = node word [] (children (cons (leaf (ascii "a")) (cons (leaf (ascii "b")) nil)))

get_binary_node_child-IsFirst_example :
    ((found : BinaryNode)
      → get_binary_node_child (some family) (ascii "b") ≡ some found
      → IsFirst (ascii "b") (get_all_binary_node_children family) found)
    × (get_binary_node_child (some family) (ascii "b") ≡ none
        → All (λ c. text_eq (tag_of c) (ascii "b") ≡ false) (get_all_binary_node_children family))
get_binary_node_child-IsFirst_example = get_binary_node_child-IsFirst family (ascii "b")

-- An attribute with a value and one without, a child with raw bytes and one with no tag.
abbrev letter : BinaryNode
letter =
    node word ((word, some rare) ∷ (ascii "id", none) ∷ [])
      (children (cons (node word [] (bytes (1 ∷ 2 ∷ []))) (cons (leaf []) nil)))

abbrev word-Canonical : Canonical tables word
unfolding text_eq
word-Canonical = token b't' (ascii "ype") (single 4) refl

abbrev rare-Canonical : Canonical tables rare
unfolding text_eq
rare-Canonical = token b'r' (ascii "ead-self") (double 0 0) refl

abbrev letter-CanonicalNode : CanonicalNode tables letter
unfolding count_valid content_slot count_nodes is_valid text_eq
letter-CanonicalNode =
    named word-Canonical (word-Canonical, rare-Canonical, tt) ((refl, tt), (tt, tt)) (omega arith)
      (child_nodes (omega arith) (
        written (named word-Canonical tt tt (omega arith) (raw_content (omega arith)))
          (skipped no_nodes)))

decode_binary_node-encode_binary_node_example :
    (encode_binary_node tables letter >>= decode_binary_node (λ b. err (value_error "zlib")) tables)
    ≡ ok (received tables letter)
decode_binary_node-encode_binary_node_example =
    decode_binary_node-encode_binary_node tables letter (λ b. err (value_error "zlib"))
      tables-IsTable letter-CanonicalNode

-- ===== src/Wabinary/Query.antt =====
-- wassupweb/wabinary/generic_utils.py: the children of a node and what they hold.
pub mod First
use wassupweb.Prelude.{
  ℕ, zero, suc, ◌+◌, ◌*◌, Option, none, some, List, [], ◌∷◌, if◌then◌else◌, Bytes, Result, ◌>>=◌,
  ok, err, runtime_error, index_error,
}
use wassupweb.Text.{Text, ascii, text_eq, decode_utf8}
use wassupweb.Wabinary.Node.{
  BinaryNode, node, Content, text, bytes, children, Nodes, nil, cons, Attrs,
}

unfoldable pub tag_of : BinaryNode → Text
tag_of (node tag attrs content) = tag

unfoldable pub content_of_node : BinaryNode → Content
content_of_node (node tag attrs content) = content

unfoldable pub attrs_of : BinaryNode → Attrs
attrs_of (node tag attrs content) = attrs

unfoldable pub filter_tag : Text → Nodes → List BinaryNode
unfolding tag_of
filter_tag tag nil = []
filter_tag tag (cons n ns) =
    if text_eq (tag_of n) tag then n ∷ filter_tag tag ns else filter_tag tag ns

unfoldable pub listed : Nodes → List BinaryNode
listed nil = []
listed (cons n ns) = n ∷ listed ns

unfoldable pub get_binary_node_children : Option BinaryNode → Text → List BinaryNode
unfolding filter_tag
get_binary_node_children (some (node tag attrs (children ns))) child_tag = filter_tag child_tag ns
get_binary_node_children _ child_tag = []

unfoldable pub first : List BinaryNode → Option BinaryNode
first [] = none
first (n ∷ ns) = some n

unfoldable pub get_binary_node_child : Option BinaryNode → Text → Option BinaryNode
unfolding get_binary_node_children first
get_binary_node_child n child_tag = first (get_binary_node_children n child_tag)

unfoldable pub get_all_binary_node_children : BinaryNode → List BinaryNode
unfolding listed
get_all_binary_node_children (node tag attrs (children ns)) = listed ns
get_all_binary_node_children _ = []

unfoldable pub buffer_of : Option BinaryNode → Option Bytes
buffer_of (some (node tag attrs (bytes b))) = some b
buffer_of _ = none

unfoldable pub get_binary_node_child_buffer : Option BinaryNode → Text → Option Bytes
unfolding buffer_of get_binary_node_child
get_binary_node_child_buffer n child_tag = buffer_of (get_binary_node_child n child_tag)

-- Bytes that are not UTF-8 raise.
unfoldable pub string_of : Option BinaryNode → Result (Option Text)
string_of (some (node tag attrs (text t))) = ok (some t)
string_of (some (node tag attrs (bytes b))) = do t ← decode_utf8 b; ok (some t)
string_of _ = ok none

unfoldable pub get_binary_node_child_string : Option BinaryNode → Text → Result (Option Text)
unfolding string_of get_binary_node_child
get_binary_node_child_string n child_tag = string_of (get_binary_node_child n child_tag)

-- `for i in range(length): value = 256 * value + data[i]`
unfoldable pub uint_loop : ℕ → Bytes → ℕ → Result ℕ
uint_loop value buff zero = ok value
uint_loop value [] (suc n) = err index_error
uint_loop value (b ∷ buff) (suc n) = uint_loop (256 * value + b) buff n

unfoldable pub buffer_to_uint : Bytes → ℕ → Result ℕ
unfolding uint_loop
buffer_to_uint buff size = uint_loop 0 buff size

unfoldable pub get_binary_node_child_uint : BinaryNode → Text → ℕ → Result (Option ℕ)
unfolding buffer_to_uint get_binary_node_child_buffer
get_binary_node_child_uint n child_tag size =
    elim (get_binary_node_child_buffer (some n) child_tag) [
      | none ↦ ok none
      | some buff ↦ (buffer_to_uint buff size >>= λ value. ok (some value))
    ]

-- The message that is raised has the text and the code of the error node in it.
unfoldable pub assert_node_error_free : BinaryNode → Result (Unit {0})
unfolding get_binary_node_child
assert_node_error_free n = elim (get_binary_node_child (some n) (ascii "error")) [
  | none ↦ ok tt
  | some e ↦ err (runtime_error " (code=)")
]

-- ===== src/Wabinary/Encode.antt =====
-- wassupweb/wabinary/encode.py. The bytes that a call appends to the buffer are its result.
pub mod Write
pub mod Fuel
use wassupweb.Prelude.{
  ℕ, zero, suc, ◌+◌, ◌-◌, ◌*◌, ◌/◌, ◌%◌, ◌^◌, ◌≤◌, ◌<◌, min, max, bit_and, bit_or, String, ◌≡◌,
  refl, sym, ap, ◌∙◌, ◌≢◌, ◌↔◌, ◌⊎◌, inl, inr, Bool, true, false, not, ◌&&◌, ◌||◌, Option, none,
  some, List, [], ◌∷◌, ◌++◌, map, arith, ltb, leb, ◌==◌, if◌then◌else◌, ltb→lt, lt→ltb, le→ltb,
  ==_iff, Bool-cases, Option-cases, ltb→le, IsByte, Bytes, All, All-append, length, get_elem?, take,
  drop, replicate, length-append, length-take, length-drop, length-replicate, take-length-append,
  drop-length-append, drop-add, take-length, Exception, Result, ◌>>=◌, ◌>>◌, Result-cases,
  >>=-eq-ok, ok-injective, ok, err, value_error, runtime_error, type_error, index_error,
  struct_error, key_error, recursion_error,
}
use wassupweb.Text.{Text}
use wassupweb.Wabinary.Node.{
  BinaryNode, node, Content, nothing, text, bytes, children, Nodes, nil, cons, Attrs, Tables,
}
use Write.{write_byte_length, write_list_start, write_text}

-- How many attributes have a value.
unfoldable pub count_valid : Attrs → ℕ
count_valid [] = 0
count_valid ((k, none) ∷ attrs) = count_valid attrs
count_valid ((k, some v) ∷ attrs) = suc (count_valid attrs)

unfoldable pub write_attrs : Tables → Attrs → Result Bytes
write_attrs t [] = ok []
write_attrs t ((k, none) ∷ attrs) = write_attrs t attrs
write_attrs t ((k, some v) ∷ attrs) = do
  key ← write_text t k
  value ← write_text t v
  rest ← write_attrs t attrs
  ok (key ++ (value ++ rest))

-- A child is written only if its tag is not empty.
unfoldable pub is_valid : BinaryNode → Bool
is_valid (node [] attrs content) = false
is_valid (node (c ∷ tag) attrs content) = true

unfoldable pub count_nodes : Nodes → ℕ
unfolding is_valid
count_nodes nil = 0
count_nodes (cons n ns) = if is_valid n then suc (count_nodes ns) else count_nodes ns

unfoldable pub content_slot : Content → ℕ
content_slot nothing = 0
content_slot _ = 1

-- The list header, the tag and the attributes.
unfoldable pub write_head : Tables → Text → Attrs → Content → Result Bytes
unfolding write_attrs count_valid content_slot
write_head t [] attrs content = err (value_error "Invalid node: tag cannot be undefined")
write_head t (c ∷ tag) attrs content = do
  let start = write_list_start (2 * count_valid attrs + 1 + content_slot content)
  name ← write_text t (c ∷ tag)
  pairs ← write_attrs t attrs
  ok (start ++ (name ++ pairs))

unfoldable mutual
  unfolding write_head count_nodes

  pub encode_inner : Tables → BinaryNode → Result Bytes
  encode_inner t (node tag attrs content) = do
    head ← write_head t tag attrs content
    body ← encode_content t content
    ok (head ++ body)

  pub encode_content : Tables → Content → Result Bytes
  encode_content t nothing = ok []
  encode_content t (text s) = write_text t s
  encode_content t (bytes b) = do size ← write_byte_length (length b); ok (size ++ b)
  encode_content t (children ns) = do
    body ← encode_nodes t ns
    ok (write_list_start (count_nodes ns) ++ body)

  pub encode_nodes : Tables → Nodes → Result Bytes
  encode_nodes t nil = ok []
  encode_nodes t (cons n ns) =
      let first = encode_inner t n in
      let rest = encode_nodes t ns in
      if is_valid n then (do a ← first; b ← rest; ok (a ++ b)) else rest

-- A fresh buffer starts with a zero byte.
unfoldable pub encode_binary_node : Tables → BinaryNode → Result Bytes
encode_binary_node t n = do body ← encode_inner t n; ok (0 ∷ body)

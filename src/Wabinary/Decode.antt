-- ===== src/Wabinary/Decode.antt =====
-- wassupweb/wabinary/decode.py. The index into the buffer is modelled by the bytes that are left.
pub mod Reader
use wassupweb.Prelude.{
  ℕ, zero, suc, ◌+◌, ◌-◌, ◌*◌, ◌/◌, ◌%◌, ◌^◌, ◌≤◌, ◌<◌, min, max, bit_and, bit_or, String, ◌≡◌,
  refl, sym, ap, ◌∙◌, ◌≢◌, ◌↔◌, ◌⊎◌, inl, inr, Bool, true, false, not, ◌&&◌, ◌||◌, Option, none,
  some, List, [], ◌∷◌, ◌++◌, map, arith, ltb, leb, ◌==◌, if◌then◌else◌, ltb→lt, lt→ltb, le→ltb,
  ==_iff, Bool-cases, Option-cases, ltb→le, IsByte, Bytes, All, All-append, length, get_elem?, take,
  drop, replicate, length-append, length-take, length-drop, length-replicate, take-length-append,
  drop-length-append, drop-add, take-length, Exception, Result, ◌>>=◌, ◌>>◌, Result-cases,
  >>=-eq-ok, ok-injective, ok, err, value_error, runtime_error, type_error, index_error,
  struct_error, key_error, recursion_error,
}
use wassupweb.Text.{Text, text_eq}
use wassupweb.Wabinary.Tag
use wassupweb.Wabinary.Node.{
  BinaryNode, node, Content, nothing, text, bytes, children, Nodes, nil, cons, Attrs, Tables,
}
use Reader.{Read, read_byte, read_bytes, read_int, read_int20, read_text, read_next}

unfoldable pub is_list_tag : ℕ → Bool
is_list_tag tag = tag == Tag.list_empty || tag == Tag.list_8 || tag == Tag.list_16

unfoldable pub read_list_size : ℕ → Read ℕ
read_list_size tag s =
    if tag == Tag.list_empty
    then ok (0, s)
    else if tag == Tag.list_8
    then read_byte s
    else if tag == Tag.list_16
    then read_int 2 s
    else err (value_error "invalid tag for list size")

-- `attrs[key] = value`
unfoldable pub set_attr : Text → Text → Attrs → Attrs
set_attr key value [] = (key, some value) ∷ []
set_attr key value ((k, v) ∷ attrs) =
    if text_eq k key then (k, some value) ∷ attrs else (k, v) ∷ set_attr key value attrs

unfoldable pub read_attrs : Tables → ℕ → Attrs → Read Attrs
read_attrs t zero attrs s = ok (attrs, s)
read_attrs t (suc n) attrs s = do
  (key, s1) ← read_next t s
  (value, s2) ← read_next t s1
  read_attrs t n (set_attr key value attrs) s2

-- `size` nodes, one after another.
unfoldable pub read_nodes : Read BinaryNode → ℕ → Read Nodes
read_nodes read zero s = ok (nil, s)
read_nodes read (suc n) s = do
  (first, s1) ← read s
  (rest, s2) ← read_nodes read n s1
  ok (cons first rest, s2)

unfoldable pub read_raw : Read ℕ → Read Content
read_raw size s = do (n, s1) ← size s; (raw, s2) ← read_bytes n s1; ok (bytes raw, s2)

unfoldable pub read_children : Read BinaryNode → ℕ → Read Content
read_children read tag s = do
  (size, s1) ← read_list_size tag s
  (ns, s2) ← read_nodes read size s1
  ok (children ns, s2)

unfoldable pub read_value : Tables → ℕ → Read Content
read_value t tag s = do (value, s1) ← read_text t tag s; ok (text value, s1)

-- The content behind its tag.
unfoldable pub content_of : Tables → Read BinaryNode → ℕ → Read Content
unfolding is_list_tag read_raw read_children read_value
content_of t read tag s =
    if is_list_tag tag
    then read_children read tag s
    else if tag == Tag.binary_8
    then read_raw read_byte s
    else if tag == Tag.binary_20
    then read_raw read_int20 s
    else if tag == Tag.binary_32
    then read_raw (read_int 4) s
    else read_value t tag s

unfoldable pub read_content : Tables → Read BinaryNode → Read Content
read_content t read s = do (tag, s1) ← read_byte s; content_of t read tag s1

unfoldable pub read_body : Tables → Read BinaryNode → ℕ → Read Content
read_body t read list_size s = if list_size % 2 == 0 then read_content t read s else ok (nothing, s)

unfoldable pub read_named : Tables → Read BinaryNode → ℕ → Text → Read BinaryNode
read_named t read zero header s = err (value_error "invalid node")
read_named t read (suc n) [] s = err (value_error "invalid node")
read_named t read (suc n) (c ∷ header) s = do
  (attrs, s1) ← read_attrs t (n / 2) [] s
  (content, s2) ← read_body t read (suc n) s1
  ok (node (c ∷ header) attrs content, s2)

-- One call of the decoder, with `read` for the calls on child nodes.
unfoldable pub decode_step : Tables → Read BinaryNode → Read BinaryNode
decode_step t read s = do
  (tag, s1) ← read_byte s
  (list_size, s2) ← read_list_size tag s1
  (header, s3) ← read_next t s2
  read_named t read list_size header s3

unfoldable pub decode_node : Tables → ℕ → Read BinaryNode
decode_node t zero s = err recursion_error
decode_node t (suc fuel) s = decode_step t (decode_node t fuel) s

-- Every node takes bytes, so as many rounds as there are bytes, and one more, are enough.
unfoldable pub decode_decompressed_binary_node : Tables → Read BinaryNode
decode_decompressed_binary_node t s = decode_node t (suc (length s)) s

-- `decompressing_if_required`, with `inflate` for `zlib.decompress`.
unfoldable pub decompressing_if_required : (Bytes → Result Bytes) → Bytes → Result Bytes
decompressing_if_required inflate [] = err index_error
decompressing_if_required inflate (flags ∷ rest) =
    if flags / 2 % 2 == 1 then inflate rest else ok rest

unfoldable pub decode_binary_node : (Bytes → Result Bytes) → Tables → Bytes → Result BinaryNode
decode_binary_node inflate t buff = do
  decomp ← decompressing_if_required inflate buff
  (n, _) ← decode_decompressed_binary_node t decomp
  ok n

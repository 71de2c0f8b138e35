-- ===== src/Wabinary/Query/First.antt =====
-- Which child the lookups of wassupweb/wabinary/generic_utils.py find.
use wassupweb.Prelude.{
  ◌≡◌, refl, sym, ap, ◌∙◌, inl, inr, false, none, some, List, [], ◌∷◌, ◌++◌, Bool-cases, All,
}
use wassupweb.Text.{Text, text_eq, text_eq_iff}
use wassupweb.Wabinary.Node.{BinaryNode, node, nothing, text, bytes, children, Nodes, nil, cons}
use wassupweb.Wabinary.Query.{
  tag_of, filter_tag, listed, get_binary_node_children, first, get_binary_node_child,
  get_all_binary_node_children,
}

-- `found` is the first node of that tag in the list.
pub record IsFirst (tag : Text) (ns : List BinaryNode) (found : BinaryNode) : Type 0 where
  pub front : List BinaryNode
  pub back : List BinaryNode
  pub parts : ns ≡ front ++ found ∷ back
  pub same_tag : tag_of found ≡ tag
  pub none_before : All (λ n. text_eq (tag_of n) tag ≡ false) front

first-filter_tag :
    (tag : Text) (ns : Nodes) (found : BinaryNode)
    → first (filter_tag tag ns) ≡ some found
    → IsFirst tag (listed ns) found
unfolding first filter_tag listed
first-filter_tag tag nil found e = absurd (cc)
first-filter_tag tag (cons n ns) found e = elim (Bool-cases (text_eq (tag_of n) tag)) [
  | inl same ↦
      let here : first (filter_tag tag (cons n ns)) ≡ some n = rw (filter_tag, same) refl in
      record {
        front = [];
        back = listed ns;
        parts = some-head (sym here ∙ e);
        same_tag =
            ap tag_of (some-injective (sym (sym here ∙ e))) ∙ (text_eq_iff (tag_of n) tag).0 same;
        none_before = tt;
      }
  | inr other ↦
      let next : first (filter_tag tag (cons n ns)) ≡ first (filter_tag tag ns) =
        rw (filter_tag, other) refl in
      let r = first-filter_tag tag ns found (sym next ∙ e) in
      record {
        front = n ∷ r.front;
        back = r.back;
        parts = ap (λ t. n ∷ t) r.parts;
        same_tag = r.same_tag;
        none_before = (other, r.none_before);
      }
]
  where
    some-injective : {a b : BinaryNode} → some a ≡ some b → a ≡ b
    some-injective e = cc

    some-head : some n ≡ some found → n ∷ listed ns ≡ found ∷ listed ns
    some-head e = cc

first-none :
    (tag : Text) (ns : Nodes)
    → first (filter_tag tag ns) ≡ none
    → All (λ n. text_eq (tag_of n) tag ≡ false) (listed ns)
unfolding first filter_tag listed
first-none tag nil e = tt
first-none tag (cons n ns) e = elim (Bool-cases (text_eq (tag_of n) tag)) [
  | inl same ↦
      let here : first (filter_tag tag (cons n ns)) ≡ some n = rw (filter_tag, same) refl in
      absurd (cc)
  | inr other ↦
      let next : first (filter_tag tag (cons n ns)) ≡ first (filter_tag tag ns) =
        rw (filter_tag, other) refl in
      (other, first-none tag ns (sym next ∙ e))
]

-- What `get_binary_node_child` answers: the first of the node's children with that tag, and `None`
-- only where no child has it.
pub get_binary_node_child-IsFirst :
    (n : BinaryNode) (tag : Text)
    → ((found : BinaryNode)
        → get_binary_node_child (some n) tag ≡ some found
        → IsFirst tag (get_all_binary_node_children n) found)
      × (get_binary_node_child (some n) tag ≡ none
          → All (λ c. text_eq (tag_of c) tag ≡ false) (get_all_binary_node_children n))
unfolding get_binary_node_child get_all_binary_node_children get_binary_node_children first
get_binary_node_child-IsFirst (node t attrs (children ns)) tag =
    (first-filter_tag tag ns, first-none tag ns)
get_binary_node_child-IsFirst (node t attrs nothing) tag = (λ f e. absurd (cc), λ e. tt)
get_binary_node_child-IsFirst (node t attrs (text v)) tag = (λ f e. absurd (cc), λ e. tt)
get_binary_node_child-IsFirst (node t attrs (bytes v)) tag = (λ f e. absurd (cc), λ e. tt)

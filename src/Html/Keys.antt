-- ===== src/Html/Keys.antt =====
-- What parseHtmlNode puts under each key of a tag.
use apitest.Base.{
  Bool, true, false, not, ◌&&◌, String, Option, none, some, List, [], ◌∷◌, ◌++◌, map, str_eq,
  is_empty, if◌then◌else◌, ◌<>◌, ◌≡◌, refl, sym, ap, ◌∙◌, arith, eq_iff, Bool-cases, inl, inr,
}
use mathlib.Core.List.{append_assoc, append-nil}
use apitest.Base.Dict.{Dict, lookup, insert, lookup-insert}
use apitest.Json.{Value, str, object, array, of_items, of_fields}
use apitest.Html.{
  Node, Nodes, tag, comment, other_node, no_nodes, node_then, trim, add_attributes, add_comments,
  add_child, add_children, add_text, Contents, values_at, append_children, tag_data,
  parse_html_node, contents,
}

abbrev or_before : Option Value → Option Value → Option Value
or_before none v = v
or_before (some w) v = some w

-- One value stands for itself, several for their array.
abbrev pub one_or_all : List Value → Option Value
one_or_all [] = none
one_or_all (v ∷ []) = some v
one_or_all (v ∷ w ∷ vs) = some (array (of_items (v ∷ w ∷ vs)))

abbrev nothing_read : Contents
nothing_read = record { children = []; comments = [] }

-- The value of the last attribute `name` with `k` = "-" + `name`.
abbrev pub attribute_at : String → Dict String → Option Value → Option Value
attribute_at k [] before = before
attribute_at k ((name, v) ∷ ats) before =
    attribute_at k ats (if str_eq ("-" <> name) k then some (str v) else before)

abbrev pub comment_texts : Nodes → List String
comment_texts no_nodes = []
comment_texts (node_then (tag name ats kids) rest) = comment_texts rest
comment_texts (node_then (comment c) rest) = trim c ∷ comment_texts rest
comment_texts (node_then (other_node c) rest) = comment_texts rest

abbrev pub has_tags : Nodes → Bool
has_tags no_nodes = false
has_tags (node_then (tag name ats kids) rest) = true
has_tags (node_then (comment c) rest) = has_tags rest
has_tags (node_then (other_node c) rest) = has_tags rest

-- No two keys are the same.
abbrev Unrepeated : Dict (List Value) → Type 0
Unrepeated [] = Unit {0}
Unrepeated ((k, vs) ∷ m) = (lookup k m ≡ none) × Unrepeated m

str_eq-swap : (a b : String) → str_eq a b ≡ false → str_eq b a ≡ false
str_eq-swap a b h = ground (arith, eq_iff a b, eq_iff b a)

insert-Unrepeated :
    (k : String) (vs : List Value) (m : Dict (List Value))
    → Unrepeated m
    → Unrepeated (insert k vs m)
unfolding insert lookup
insert-Unrepeated k vs [] h = (refl, tt)
insert-Unrepeated k vs ((j, ws) ∷ m) h = elim (Bool-cases (str_eq j k)) [
  | inl e ↦
      let fresh = h.0 in
      let same : lookup k m ≡ none = ap (λ i. lookup i m) (sym ((eq_iff j k).0 e)) ∙ fresh in
      rw e (same, h.1)
  | inr ne ↦
      rw ne (lookup-insert m k j vs ∙ rw (str_eq-swap j k ne) h.0, insert-Unrepeated k vs m h.1)
]

is_empty-insert :
    (k : String) (vs : List Value) (m : Dict (List Value)) → is_empty (insert k vs m) ≡ false
unfolding insert
is_empty-insert k vs [] = refl
is_empty-insert k vs ((j, ws) ∷ m) = ground arith

lookup-add_attributes :
    (k : String) (ats : Dict String) (m : Dict Value)
    → lookup k (add_attributes ats m) ≡ attribute_at k ats (lookup k m)
unfolding add_attributes
lookup-add_attributes k [] m = refl
lookup-add_attributes k ((name, v) ∷ ats) m =
    lookup-add_attributes k ats _
    ∙ ap (attribute_at k ats) (lookup-insert m ("-" <> name) k (str v))

lookup-add_child :
    (k name : String) (vs : List Value) (m : Dict Value)
    → lookup k (add_child name vs m)
      ≡ (if str_eq name k then or_before (one_or_all vs) (lookup k m) else lookup k m)
unfolding add_child
lookup-add_child k name [] m = ground arith
lookup-add_child k name (v ∷ []) m = lookup-insert m name k v
lookup-add_child k name (v ∷ w ∷ vs) m = lookup-insert m name k _

lookup-add_children :
    (k : String) (children : Dict (List Value)) (m : Dict Value)
    → Unrepeated children
    → lookup k (add_children children m)
      ≡ or_before (one_or_all (values_at (lookup k children))) (lookup k m)
unfolding add_children lookup values_at
lookup-add_children k [] m h = refl
lookup-add_children k ((name, vs) ∷ rest) m h =
    lookup-add_children k rest (add_child name vs m) h.1
    ∙ rw (lookup-add_child k name vs m) (elim (Bool-cases (str_eq name k)) [
      | inl e ↦
          let fresh = h.0 in
          let same : lookup k rest ≡ none =
            ap (λ i. lookup i rest) (sym ((eq_iff name k).0 e)) ∙ fresh in
          rw (e, same) refl
      | inr ne ↦ rw ne refl
    ])

lookup-add_comments :
    (k : String) (cs : List String) (m : Dict Value)
    → lookup k (add_comments cs m) ≡ (
        if str_eq "#comment" k
        then or_before (one_or_all (map str cs)) (lookup k m)
        else lookup k m)
unfolding add_comments
lookup-add_comments k [] m = ground arith
lookup-add_comments k (c ∷ []) m = lookup-insert m "#comment" k _
lookup-add_comments k (c ∷ d ∷ cs) m = lookup-insert m "#comment" k _

lookup-add_text :
    (k t : String) (children : Dict (List Value)) (m : Dict Value)
    → lookup k (add_text t children m) ≡ (
        if is_empty children && not (str_eq (trim t) "") && str_eq "#text" k
        then some (str (trim t))
        else lookup k m)
unfolding add_text
lookup-add_text k t children m = elim (Bool-cases (is_empty children && not (str_eq (trim t) ""))) [
  | inl e ↦ rw e (lookup-insert m "#text" k _)
  | inr ne ↦ rw ne refl
]

module _ (text : Node → String) where
  -- What parseHtmlNode makes of a tag, without its name.
  abbrev pub value_of : String → Dict String → Nodes → Value
  value_of name ats kids =
      object (of_fields (tag_data (text (tag name ats kids)) ats (contents text kids nothing_read)))

  -- The values of the tags with this name, in the order of the page.
  abbrev pub tags_named : String → Nodes → List Value
  tags_named k no_nodes = []
  tags_named k (node_then (tag name ats kids) rest) =
      let following = tags_named k rest in
      if str_eq name k then value_of name ats kids ∷ following else following
  tags_named k (node_then (comment c) rest) = tags_named k rest
  tags_named k (node_then (other_node c) rest) = tags_named k rest

  contents-children :
      (k : String) (nodes : Nodes) (s : Contents)
      → values_at (lookup k (contents text nodes s).children)
        ≡ values_at (lookup k s.children) ++ tags_named k nodes
  unfolding parse_html_node append_children values_at
  contents-children k no_nodes s = sym (append-nil _)
  contents-children k (node_then (tag name ats kids) rest) s =
      contents-children k rest _
      ∙ rw
          (lookup-insert s.children name k
            (values_at (lookup name s.children) ++ value_of name ats kids ∷ []))
          (elim (Bool-cases (str_eq name k)) [
            | inl e ↦
                let same : lookup name s.children ≡ lookup k s.children =
                  ap (λ i. lookup i s.children) ((eq_iff name k).0 e) in
                rw (e, same) (append_assoc (values_at (lookup k s.children)) _ _)
            | inr ne ↦ rw ne refl
          ])
  contents-children k (node_then (comment c) rest) s = contents-children k rest _
  contents-children k (node_then (other_node c) rest) s = contents-children k rest s

  contents-comments :
      (nodes : Nodes) (s : Contents)
      → (contents text nodes s).comments ≡ s.comments ++ comment_texts nodes
  unfolding parse_html_node append_children
  contents-comments no_nodes s = sym (append-nil _)
  contents-comments (node_then (tag name ats kids) rest) s = contents-comments rest _
  contents-comments (node_then (comment c) rest) s =
      contents-comments rest _ ∙ append_assoc s.comments _ _
  contents-comments (node_then (other_node c) rest) s = contents-comments rest s

  contents-Unrepeated :
      (nodes : Nodes) (s : Contents)
      → Unrepeated s.children
      → Unrepeated (contents text nodes s).children
  unfolding parse_html_node append_children
  contents-Unrepeated no_nodes s h = h
  contents-Unrepeated (node_then (tag name ats kids) rest) s h =
      contents-Unrepeated rest _ (insert-Unrepeated name _ s.children h)
  contents-Unrepeated (node_then (comment c) rest) s h = contents-Unrepeated rest _ h
  contents-Unrepeated (node_then (other_node c) rest) s h = contents-Unrepeated rest s h

  contents-is_empty :
      (nodes : Nodes) (s : Contents)
      → is_empty (contents text nodes s).children ≡ (is_empty s.children && not (has_tags nodes))
  unfolding parse_html_node append_children
  contents-is_empty no_nodes s = ground arith
  contents-is_empty (node_then (tag name ats kids) rest) s =
      contents-is_empty rest _ ∙ rw (is_empty-insert name _ s.children) (ground arith)
  contents-is_empty (node_then (comment c) rest) s = contents-is_empty rest _
  contents-is_empty (node_then (other_node c) rest) s = contents-is_empty rest s

  -- What stands under the key `k` of a tag: the text, if the page has one and no tags are in it; or
  -- the tags of this name that are in it; or the comments; or the attribute.
  abbrev pub expected_at : String → String → Dict String → Nodes → Option Value
  expected_at k name ats kids =
      let t = trim (text (tag name ats kids)) in
      if not (has_tags kids) && not (str_eq t "") && str_eq "#text" k
      then some (str t)
      else or_before (one_or_all (tags_named k kids)) (
          if str_eq "#comment" k
          then or_before (one_or_all (map str (comment_texts kids))) (attribute_at k ats none)
          else attribute_at k ats none)

  lookup-tag_data :
      (k name : String) (ats : Dict String) (kids : Nodes)
      → lookup k (tag_data (text (tag name ats kids)) ats (contents text kids nothing_read))
        ≡ expected_at k name ats kids
  unfolding tag_data lookup values_at
  lookup-tag_data k name ats kids =
      let s = contents text kids nothing_read in
      lookup-add_text k (text (tag name ats kids)) s.children
        (add_children s.children (add_comments s.comments (add_attributes ats [])))
      ∙ rw
          (
            lookup-add_children k s.children (add_comments s.comments (add_attributes ats []))
                (contents-Unrepeated kids nothing_read tt),
            lookup-add_comments k s.comments (add_attributes ats []),
            lookup-add_attributes k ats [],
            contents-children k kids nothing_read,
            contents-comments kids nothing_read,
            contents-is_empty kids nothing_read,
          )
          refl

  -- parseHtmlNode makes a map with the tag's name, whose value has under each key the text, if it
  -- is not blank and no tags are in the tag; or the tags of that name in it, one for itself and
  -- several as an array in the page's order; or the comments, likewise; or the attribute.
  pub parse_html_node-expected_at :
      (name : String) (ats : Dict String) (kids : Nodes)
      → (d : Dict Value) × (parse_html_node text (tag name ats kids)
          ≡ (name, object (of_fields d)) ∷ [])
        × ((k : String) → lookup k d ≡ expected_at k name ats kids)
  unfolding parse_html_node
  parse_html_node-expected_at name ats kids = (
    tag_data (text (tag name ats kids)) ats (contents text kids nothing_read),
    refl,
    λ k. lookup-tag_data k name ats kids,
  )

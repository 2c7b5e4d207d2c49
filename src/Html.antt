-- ===== src/Html.antt =====
-- pkg/lib/util/util.go: the document that an HTML page becomes. The tree is the one that
-- golang.org/x/net/html parses; the parser, the text of a node and the JSON encoder are parameters.
pub mod Keys
use apitest.Base.{
  ℕ, Bool, true, false, not, ◌&&◌, ◌||◌, String, Option, none, some, List, [], ◌∷◌, ◌++◌, Outcome,
  ok, err, map, code, str_eq, ◌==◌, is_empty, if◌then◌else◌, ◌<>◌,
}
use apitest.Base.Dict.{Dict, lookup, insert}
use apitest.Json.{Value, Items, str, array, object, of_fields, of_items}

mutual
  pub data Node : Type 0 where
    -- the name, the attributes and the contents
    tag : String → Dict String → Nodes → Node
    comment : String → Node
    -- a text, a doctype, ...
    other_node : String → Node

  pub data Nodes : Type 0 where
    no_nodes : Nodes
    node_then : Node → Nodes → Nodes

unfoldable pub is_blank : ℕ → Bool
is_blank c = c == 32 || c == 10 || c == 9

unfoldable pub trim_start : String → String
unfolding is_blank
trim_start String.[] = ""
trim_start (String.◌∷◌ c s) =
    let rest = trim_start s in if is_blank (code c) then rest else String.◌∷◌ c s

unfoldable pub trim_end : String → String
unfolding is_blank
trim_end String.[] = ""
trim_end (String.◌∷◌ c s) =
    let rest = trim_end s in if is_blank (code c) && str_eq rest "" then "" else String.◌∷◌ c rest

-- strings.Trim(s, " \n\t")
unfoldable pub trim : String → String
unfolding trim_start trim_end
trim s = trim_end (trim_start s)

unfoldable pub add_attributes : Dict String → Dict Value → Dict Value
add_attributes [] dat = dat
add_attributes ((k, v) ∷ ats) dat = add_attributes ats (insert ("-" <> k) (str v) dat)

unfoldable pub add_comments : List String → Dict Value → Dict Value
add_comments [] dat = dat
add_comments (c ∷ []) dat = insert "#comment" (str c) dat
add_comments (c ∷ d ∷ cs) dat = insert "#comment" (array (of_items (map str (c ∷ d ∷ cs)))) dat

unfoldable pub add_child : String → List Value → Dict Value → Dict Value
add_child name [] dat = dat
add_child name (v ∷ []) dat = insert name v dat
add_child name (v ∷ w ∷ vs) dat = insert name (array (of_items (v ∷ w ∷ vs))) dat

unfoldable pub add_children : Dict (List Value) → Dict Value → Dict Value
unfolding add_child
add_children [] dat = dat
add_children ((name, vs) ∷ rest) dat = add_children rest (add_child name vs dat)

unfoldable pub add_text : String → Dict (List Value) → Dict Value → Dict Value
unfolding trim
add_text t children dat =
    if is_empty children && not (str_eq (trim t) "") then insert "#text" (str (trim t)) dat else dat

-- childrenByName and comments
pub record Contents : Type 0 where
  pub children : Dict (List Value)
  pub comments : List String

unfoldable pub values_at : Option (List Value) → List Value
values_at none = []
values_at (some vs) = vs

-- The loop over the map that parseHtmlNode returned.
unfoldable pub append_children : Dict Value → Contents → Contents
unfolding values_at insert lookup
append_children [] s = s
append_children ((name, v) ∷ rest) s =
    append_children rest (record s {
      children = insert name (values_at (lookup name s.children) ++ v ∷ []) s.children;
    })

unfoldable pub tag_data : String → Dict String → Contents → Dict Value
unfolding add_attributes add_comments add_children add_text
tag_data t ats s =
    add_text t s.children
      (add_children s.children (add_comments s.comments (add_attributes ats [])))

pub data HtmlError : Type 0 where
  no_html no_json : String → HtmlError

module _ (text : Node → String) where
  unfoldable mutual
    unfolding append_children trim tag_data

    -- Only a tag is parsed.
    pub parse_html_node : Node → Dict Value
    parse_html_node (tag name ats kids) =
        (
          name,
          object (
              of_fields (
                tag_data (text (tag name ats kids)) ats
                  (contents kids (record { children = []; comments = [] })))),
        )
        ∷ []
    parse_html_node (comment c) = []
    parse_html_node (other_node c) = []

    pub contents : Nodes → Contents → Contents
    contents no_nodes s = s
    contents (node_then (tag name ats kids) rest) s =
        contents rest (append_children (parse_html_node (tag name ats kids)) s)
    contents (node_then (comment c) rest) s =
        contents rest (record s { comments = s.comments ++ trim c ∷ [] })
    contents (node_then (other_node c) rest) s = contents rest s

  -- htmlData after the loop over the page's contents.
  unfoldable pub html_data : Nodes → Dict Value → Dict Value
  unfolding parse_html_node
  html_data no_nodes dat = dat
  html_data (node_then (tag name ats kids) rest) dat =
      html_data rest (parse_html_node (tag name ats kids))
  html_data (node_then (comment c) rest) dat = html_data rest dat
  html_data (node_then (other_node c) rest) dat = html_data rest dat

  unfoldable pub encoded : Outcome String String → Outcome HtmlError String
  encoded (ok s) = ok s
  encoded (err e) = err (no_json e)

  unfoldable pub html_to_json :
      (Value → Outcome String String) → Outcome String Nodes → Outcome HtmlError String
  unfolding html_data encoded
  html_to_json to_json (err e) = err (no_html e)
  html_to_json to_json (ok page) = encoded (to_json (object (of_fields (html_data page []))))

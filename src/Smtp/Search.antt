-- ===== src/Smtp/Search.antt =====
-- search.go: the messages or the parts that have a matching header for every regular expression. A
-- regular expression that compiled is the test that it makes of a text.
pub mod Repeated
use apitest.Base.{
  Bool, true, false, ◌&&◌, ◌||◌, String, Option, none, some, List, [], ◌∷◌, ◌++◌, Outcome, ok, err,
  ◌>>=◌, ◌<>◌, if◌then◌else◌,
}
use apitest.Smtp.{Headers, Content, headers}

abbrev pub Regexp : Type 0
Regexp = String → Bool

unfoldable pub any_value_matches : String → List String → Regexp → Bool
any_value_matches k [] re = false
any_value_matches k (v ∷ vs) re = re (k <> (": " <> v)) || any_value_matches k vs re

unfoldable pub any_header_matches : Headers → Regexp → Bool
unfolding any_value_matches
any_header_matches [] re = false
any_header_matches ((k, vs) ∷ hs) re = any_value_matches k vs re || any_header_matches hs re

unfoldable pub all_regexes_match_any_header : Headers → List Regexp → Bool
unfolding any_header_matches
all_regexes_match_any_header hs [] = true
all_regexes_match_any_header hs (re ∷ rxs) =
    any_header_matches hs re && all_regexes_match_any_header hs rxs

-- `T` is a contentHaver, by `content_of`.
module _ {T : Type 0} (content_of : T → Content) where
  unfoldable pub search_by_header : List T → List Regexp → List T
  unfolding all_regexes_match_any_header
  search_by_header [] rxs = []
  search_by_header (c ∷ haystack) rxs =
      let rest = search_by_header haystack rxs in
      if all_regexes_match_any_header (headers (content_of c)) rxs then c ∷ rest else rest

-- extractSearchRegexes of http.go: a value that is a JSON array of strings stands for its strings.
module _ (unmarshal_strings : String → Option (List String))
    (compile : String → Option Regexp) where
  unfoldable pub search_texts : String → Option (List String) → List String
  search_texts v none = v ∷ []
  search_texts v (some ss) = ss

  unfoldable pub search_params : List String → List String
  unfolding search_texts
  search_params [] = []
  search_params (v ∷ vs) = search_texts v (unmarshal_strings v) ++ search_params vs

  abbrev pub compiled : String → Option Regexp → Outcome String Regexp
  compiled p none = err p
  compiled p (some re) = ok re

  unfoldable pub compile_all : List String → Outcome String (List Regexp)
  compile_all [] = ok []
  compile_all (p ∷ ps) = do re ← compiled p (compile p); rest ← compile_all ps; ok (re ∷ rest)

  -- The values of the query parameter; none where there is none.
  unfoldable pub extract_search_regexes : Option (List String) → Outcome String (List Regexp)
  unfolding search_params compile_all
  extract_search_regexes none = ok []
  extract_search_regexes (some vs) = compile_all (search_params vs)

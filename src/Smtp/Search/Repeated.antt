-- ===== src/Smtp/Search/Repeated.antt =====
-- A search by several expressions is a search in what a search has found.
use apitest.Base.{◌≡◌, refl, ◌&&◌, List, [], ◌∷◌, ◌++◌, arith, Bool-cases, inl, inr}
use apitest.Smtp.{Headers, Content, headers}
use apitest.Smtp.Search.{Regexp, all_regexes_match_any_header, search_by_header}

all_regexes-append :
    (hs : Headers) (rxs rys : List Regexp)
    → all_regexes_match_any_header hs (rxs ++ rys)
      ≡ all_regexes_match_any_header hs rxs && all_regexes_match_any_header hs rys
unfolding all_regexes_match_any_header
all_regexes-append hs [] rys = refl
all_regexes-append hs (re ∷ rxs) rys = ground (arith, all_regexes-append hs rxs rys)

module _ {T : Type 0} (content_of : T → Content) where
  -- Searching by two lists of expressions at once finds what a search by the second finds in what a
  -- search by the first has found, in the same order.
  pub search_by_header-append :
      (haystack : List T) (rxs rys : List Regexp)
      → search_by_header content_of haystack (rxs ++ rys)
        ≡ search_by_header content_of (search_by_header content_of haystack rxs) rys
  unfolding search_by_header
  search_by_header-append [] rxs rys = refl
  search_by_header-append (c ∷ haystack) rxs rys =
      let both = all_regexes-append (headers (content_of c)) rxs rys in
      let ih = search_by_header-append haystack rxs rys in
      elim (Bool-cases (all_regexes_match_any_header (headers (content_of c)) rxs)) [
        | inl e ↦ rw (both, e, ih)
        | inr e ↦ rw (both, e, ih)
      ]

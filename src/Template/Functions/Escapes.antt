-- ===== src/Template/Functions/Escapes.antt =====
-- A text is read back from its escaped form, and a query from a URL that a key was removed from.
use apitest.Base.{
  Bool, true, false, String, Outcome, ok, code, ◌==◌, if◌then◌else◌, ◌≡◌, refl, ap, arith,
  Bool-cases, inl, inr, eq_refl,
}
use apitest.Base.Dict.{erase, lookup-erase}
use apitest.Template.Functions.{Url, str_escape, remove_from_url, value_from_url}

-- A backslash stands for the character behind it; the flag is true behind a backslash.
unfoldable pub unescape : Bool → String → String
unescape behind String.[] = ""
unescape true (String.◌∷◌ c s) = String.◌∷◌ c (unescape false s)
unescape false (String.◌∷◌ c s) =
    let skipped = unescape true s in
    let kept = String.◌∷◌ c (unescape false s) in if code c == b'\\' then skipped else kept

-- str_escape is undone by reading a backslash as the character behind it.
pub unescape-str_escape : (s : String) → unescape false (str_escape s) ≡ s
unfolding str_escape unescape
unescape-str_escape String.[] = refl
unescape-str_escape (String.◌∷◌ c s) = elim (Bool-cases (code c == 92)) [
  | inl slash ↦
      let no_quote : (code c == 34) ≡ false = ground arith in
      rw (slash, no_quote) (ap (λ t. String.◌∷◌ c t) (unescape-str_escape s))
  | inr other ↦ elim (Bool-cases (code c == 34)) [
    | inl quote ↦ rw (other, quote) (ap (λ t. String.◌∷◌ c t) (unescape-str_escape s))
    | inr plain ↦ rw (other, plain, other) (ap (λ t. String.◌∷◌ c t) (unescape-str_escape s))
  ]
]

module _ (parse : String → Outcome String Url) (to_text : Url → String)
    (port : String → String) where
  -- A key that was removed from a URL has no value in it, for a URL that is parsed and that, without
  -- the key, its text gives back.
  pub value_from_url-remove_from_url :
      (key src : String) (u : Url)
      → parse src ≡ ok u
      → parse (to_text (record u { query = erase key u.query }))
        ≡ ok (record u { query = erase key u.query })
      → value_from_url parse to_text port key (remove_from_url parse to_text port key src) ≡ ""
  unfolding value_from_url remove_from_url
  value_from_url-remove_from_url key src u read back =
      rw (read, back, lookup-erase key key u.query, eq_refl key) refl

-- ===== src/Datastore/Responses.antt =====
-- The list of responses: what an index selects, and how a repeated request replaces its response.
use apitest.Base.{
  ℕ, zero, suc, ◌+◌, ◌≤◌, ◌<◌, ◌-◌, ◌≡◌, refl, ap, ◌∙◌, false, String, none, some, List, [], ◌∷◌,
  ◌++◌, ok, err, str_eq, length, get_elem?, get_elem?-middle, length-append, arith,
}
use apitest.Base.Int.{ℤ, pos, negsuc}
use apitest.Json.{str}
use apitest.Json.Number.{parse_int}
use apitest.Datastore.{
  Datastore, out_of_bounds, split_map, wrap_index, at_index, get, get_split, get_plain, response,
  shown_index, append_response, set_last, update_last_response,
}

get_elem?-none : (xs : List String) (n : ℕ) → length xs ≤ n → get_elem? xs n ≡ none
get_elem?-none [] n h = refl
get_elem?-none (x ∷ xs) zero h = absurd (omega arith)
get_elem?-none (x ∷ xs) (suc n) h = get_elem?-none xs n (omega arith)

-- An index that is a number.
pub record IsNumber (index : String) (n : ℤ) : Type 0 where
  pub number : parse_int index ≡ some n
  pub no_split : split_map index ≡ none
  pub no_dash : str_eq index "-" ≡ false

get-IsNumber :
    (ds : Datastore) (index : String) (n : ℤ)
    → IsNumber index n
    → get ds index
      ≡ response n
          (length ds.responses)
          (at_index ds.responses (wrap_index n (length ds.responses)))
unfolding get get_split get_plain
get-IsNumber ds index n h = rw (h.no_dash, h.no_split, h.number)

-- The number that selects the response between `xs` and `ys`, from the front or from the end.
abbrev pub Selects : List String → List String → ℤ → Type 0
Selects xs ys (pos n) = n ≡ length xs
Selects xs ys (negsuc n) = n ≡ length ys

-- The number that selects no response.
abbrev pub OutOfRange : ℕ → ℤ → Type 0
OutOfRange len (pos n) = len ≤ n
OutOfRange len (negsuc n) = len ≤ n

wrap_index_in : (n len : ℕ) → n < len → wrap_index (negsuc n) len ≡ some (len - (n + 1))
unfolding wrap_index
wrap_index_in n len h = ground arith

wrap_index_out : (n len : ℕ) → len ≤ n → wrap_index (negsuc n) len ≡ none
unfolding wrap_index
wrap_index_out n len h = ground arith

selected :
    (xs : List String) (r : String) (ys : List String) (n : ℤ)
    → Selects xs ys n
    → at_index (xs ++ r ∷ ys) (wrap_index n (length (xs ++ r ∷ ys))) ≡ some r
unfolding at_index wrap_index
selected xs r ys (pos n) h = ap (get_elem? (xs ++ r ∷ ys)) h ∙ get_elem?-middle xs r ys
selected xs r ys (negsuc n) h =
    let len = length-append xs (r ∷ ys) in
    ap (at_index (xs ++ r ∷ ys))
      (wrap_index_in n (length (xs ++ r ∷ ys)) (omega (arith, len)) ∙ ap some (omega (arith, len)))
    ∙ get_elem?-middle xs r ys

-- Get of a number returns the response that the number selects: n counts from the front, and
-- -1, -2 and so on from the end.
pub get_selected :
    (ds : Datastore) (index : String) (n : ℤ) (xs : List String) (r : String) (ys : List String)
    → IsNumber index n
    → ds.responses ≡ xs ++ r ∷ ys
    → Selects xs ys n
    → get ds index ≡ ok (str r)
unfolding response
get_selected ds index n xs r ys h e s = get-IsNumber ds index n h ∙ rw (e, selected xs r ys n s)

unselected :
    (rs : List String) (n : ℤ)
    → OutOfRange (length rs) n
    → at_index rs (wrap_index n (length rs)) ≡ none
unfolding at_index wrap_index
unselected rs (pos n) h = get_elem?-none rs n h
unselected rs (negsuc n) h = ap (at_index rs) (wrap_index_out n (length rs) h)

-- Get of a number that selects no response is an error.
pub get-OutOfRange :
    (ds : Datastore) (index : String) (n : ℤ)
    → IsNumber index n
    → OutOfRange (length ds.responses) n
    → (shown : ℤ) × (get ds index ≡ err (out_of_bounds shown (length ds.responses)))
unfolding response
get-OutOfRange ds index n h o = (
  shown_index n (length ds.responses),
  get-IsNumber ds index n h ∙ rw (unselected ds.responses n o),
)

pub set_last-append :
    (rs : List String) (s t : String) → set_last t (rs ++ s ∷ []) ≡ some (rs ++ t ∷ [])
unfolding set_last
set_last-append [] s t = refl
set_last-append (r ∷ []) s t = refl
set_last-append (r ∷ q ∷ rs) s t = rw (set_last-append (q ∷ rs) s t)

-- A repeated request replaces the response that its first run appended, and nothing else changes.
pub update_last_response-append_response :
    (ds : Datastore) (s t : String)
    → update_last_response (append_response ds s) t ≡ some (append_response ds t)
unfolding update_last_response append_response
update_last_response-append_response ds s t =
    rw (set_last-append ds.responses s t, update_last_response)

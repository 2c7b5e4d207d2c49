-- ===== src/ProxyStore/Reads.antt =====
-- Reading from a store: what a client that follows the next offset gets, and when a read panics.
use mathlib.Core.List.{append_assoc}
use apitest.Base.{
  ℕ, zero, suc, ◌≡◌, ◌↔◌, ◌<◌, refl, ap, sym, ◌∙◌, Bool, true, false, String, Option, none, some,
  List, [], ◌∷◌, ◌++◌, length, get_elem?, get_elem?-middle, map, leb, length-append, arith,
}
use apitest.Base.Int.{ℤ, pos, negsuc}
use apitest.ProxyStore.{
  Request, StoreEntry, Store, page, invalid_offset, offset_too_high, panic, next_offset, page_at,
  read_at, read, requested,
}

-- The entry behind `xs` is read, with the offset of the next.
pub read_at_middle :
    (xs : List StoreEntry) (e : StoreEntry) (ys : List StoreEntry)
    → read_at (xs ++ e ∷ ys) (some (pos (length xs)))
      ≡ page e.request (length (xs ++ e ∷ ys)) (next_offset (length xs) (length (xs ++ e ∷ ys)))
unfolding read_at page_at
read_at_middle xs e ys =
    let within : leb (length (xs ++ e ∷ ys)) (length xs) ≡ false =
      ground (arith, length-append xs (e ∷ ys)) in
    rw (within, get_elem?-middle xs e ys)

abbrev prepend : Request → Option (List Request × ℕ) → Option (List Request × ℕ)
prepend r none = none
prepend r (some (rs, last)) = some (r ∷ rs, last)

-- A client that reads `k` times, each time at the offset that the last answer named.
unfoldable pub follow : ℕ → List StoreEntry → ℕ → Option (List Request × ℕ)
follow zero entries offset = some ([], offset)
follow (suc k) entries offset = elim (read_at entries (some (pos offset))) [
  | page r count next ↦ prepend r (follow k entries next)
  | invalid_offset ↦ none
  | offset_too_high o count ↦ none
  | panic ↦ none
]

next_offset_last :
    (xs : List StoreEntry) (e : StoreEntry) → next_offset (length xs) (length (xs ++ e ∷ [])) ≡ 0
unfolding next_offset
next_offset_last xs e = ground (arith, length-append xs (e ∷ []))

next_offset_middle :
    (xs : List StoreEntry) (e y : StoreEntry) (ys : List StoreEntry)
    → next_offset (length xs) (length (xs ++ e ∷ y ∷ ys)) ≡ length (xs ++ e ∷ [])
unfolding next_offset
next_offset_middle xs e y ys =
    ground (arith, length-append xs (e ∷ y ∷ ys), length-append xs (e ∷ []))

follow_next :
    (xs : List StoreEntry) (e y : StoreEntry) (ys : List StoreEntry)
    {res : Option (List Request × ℕ)}
    → follow (suc (length ys)) ((xs ++ e ∷ []) ++ y ∷ ys) (length (xs ++ e ∷ [])) ≡ res
    → follow (suc (length ys)) (xs ++ e ∷ y ∷ ys) (length (xs ++ e ∷ [])) ≡ res
follow_next xs e y ys h =
    ap (λ es. follow (suc (length ys)) es (length (xs ++ e ∷ [])))
      (sym (append_assoc xs (e ∷ []) (y ∷ ys)))
    ∙ h

follow_step :
    (k : ℕ) (entries : List StoreEntry) (o : ℕ) {r : Request} {count next : ℕ}
    → read_at entries (some (pos o)) ≡ page r count next
    → follow (suc k) entries o ≡ prepend r (follow k entries next)
unfolding follow
follow_step k entries o h = rw (h, follow)

-- What `follow` gets from the entry behind `xs` on: all that is left, and then the first offset.
follow_rest :
    (xs : List StoreEntry) (e : StoreEntry) (ys : List StoreEntry)
    → follow (suc (length ys)) (xs ++ e ∷ ys) (length xs)
      ≡ some (map StoreEntry.request (e ∷ ys), 0)
unfolding follow
follow_rest xs e [] =
    follow_step 0 (xs ++ e ∷ []) (length xs) (read_at_middle xs e [])
    ∙ ap (λ n. prepend e.request (follow 0 (xs ++ e ∷ []) n)) (next_offset_last xs e)
follow_rest xs e (y ∷ ys) =
    follow_step (suc (length ys)) (xs ++ e ∷ y ∷ ys) (length xs) (read_at_middle xs e (y ∷ ys))
    ∙ ap (λ n. prepend e.request (follow (suc (length ys)) (xs ++ e ∷ y ∷ ys) n))
        (next_offset_middle xs e y ys)
    ∙ ap (prepend e.request) (follow_next xs e y ys (follow_rest (xs ++ e ∷ []) y ys))

get_elem?-present :
    (xs : List StoreEntry) (n : ℕ) → n < length xs → (e : StoreEntry) × (get_elem? xs n ≡ some e)
get_elem?-present [] n h = absurd (omega arith)
get_elem?-present (x ∷ xs) zero h = (x, refl)
get_elem?-present (x ∷ xs) (suc n) h = get_elem?-present xs n (omega arith)

position-no_panic :
    (entries : List StoreEntry) (n : ℕ) (b : Bool)
    → leb (length entries) n ≡ b
    → read_at entries (some (pos n)) ≡ panic
    → ⊥
unfolding read_at page_at
position-no_panic entries n true l h = cc (rw l at h)
position-no_panic entries n false l h =
    let (e, got) = get_elem?-present entries n (ground (arith, l)) in cc (rw (l, got) at h)

read_at_panics :
    (entries : List StoreEntry) (o : Option ℤ)
    → (read_at entries o ≡ panic) ↔ ((n : ℕ) × (o ≡ some (negsuc n)))
unfolding read_at
read_at_panics entries none = (λ h. cc, λ h. cc (h.1))
read_at_panics entries (some (pos n)) =
    (λ h. absurd (position-no_panic entries n (leb (length entries) n) refl h), λ h. cc (h.1))
read_at_panics entries (some (negsuc n)) = (λ h. (n, refl), λ h. refl)

-- A read panics at every negative offset, and at no other.
pub read_panics_iff :
    (st : Store) (offset : String)
    → (read st offset ≡ panic) ↔ ((n : ℕ) × (requested offset ≡ some (negsuc n)))
unfolding read
read_panics_iff st offset = read_at_panics st.entries (requested offset)

-- A client that begins at offset 0, and always asks for the offset that the last answer named, gets
-- the requests in the order in which they are stored, each once, and is then sent back to offset 0.
pub follow_all :
    (e : StoreEntry) (rest : List StoreEntry)
    → follow (length (e ∷ rest)) (e ∷ rest) 0 ≡ some (map StoreEntry.request (e ∷ rest), 0)
follow_all e rest = follow_rest [] e rest

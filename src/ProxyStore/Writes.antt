-- ===== src/ProxyStore/Writes.antt =====
-- Writing to a store: the offset that a write answers with, and the positions of the entries.
use mathlib.Core.List.{append_assoc}
use apitest.Base.{
  ℕ, suc, ◌+◌, ◌≡◌, refl, ap, ◌∙◌, String, Option, none, some, List, [], ◌∷◌, ◌++◌, length,
  length-append, arith,
}
use apitest.Base.Int.{pos}
use apitest.ProxyStore.{Request, StoreEntry, Store, at_offset, write, page, next_offset, read_at}
use apitest.ProxyStore.Reads.{read_at_middle}

-- The entries stand at their offsets, from `k` on.
abbrev pub IsNumbered : ℕ → List StoreEntry → Type 0
IsNumbered k [] = Unit {0}
IsNumbered k (e ∷ es) = (e.offset ≡ k) × IsNumbered (suc k) es

append_IsNumbered :
    (k : ℕ) (es : List StoreEntry) (e : StoreEntry)
    → IsNumbered k es
    → e.offset ≡ k + length es
    → IsNumbered k (es ++ e ∷ [])
append_IsNumbered k [] e h o = (omega (arith, o), tt)
append_IsNumbered k (x ∷ es) e (hx, h) o = (hx, append_IsNumbered (suc k) es e h (omega (arith, o)))

-- A write keeps every entry at its offset, whether or not the body can be read.
pub write-IsNumbered :
    (req : Request) (body : Option String) (st : Store)
    → IsNumbered 0 st.entries
    → IsNumbered 0 (write req body st).1.entries
unfolding write
write-IsNumbered req none st h = h
write-IsNumbered req (some b) st h =
    append_IsNumbered 0 st.entries
      (record { offset = length st.entries; request = record req { body = b } }) h (omega arith)

-- The offset that a write answers with is where the request is then read, with its body, and stays
-- so after any later write; the answer to a read counts all that is stored.
pub read_at-write :
    (req : Request) (body : String) (st : Store) (later : List StoreEntry)
    → (o : ℕ) × ((write req (some body) st).0 ≡ at_offset o)
      × (read_at ((write req (some body) st).1.entries ++ later) (some (pos o))
          ≡ page
              (record req { body = body })
              (o + 1 + length later)
              (next_offset o (o + 1 + length later)))
unfolding write
read_at-write req body st later =
    let e : StoreEntry = record {
      offset = length st.entries;
      request = record req { body = body };
    } in
    (
      length st.entries,
      refl,
      ap (λ xs. read_at xs (some (pos (length st.entries))))
            (append_assoc st.entries (e ∷ []) later)
          ∙ read_at_middle st.entries e later
          ∙ ap (λ c. page e.request c (next_offset (length st.entries) c))
              (omega (arith, length-append st.entries (e ∷ later))),
    )

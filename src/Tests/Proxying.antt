-- ===== src/Tests/Proxying.antt =====
-- A proxy store that was sent two requests.
use apitest.Base.{ℕ, ◌+◌, ◌≡◌, refl, some, [], ◌∷◌, ◌++◌}
use apitest.Base.Int.{pos}
use apitest.ProxyStore.{
  Request, StoreEntry, Store, at_offset, page, write, read_at, next_offset, new_proxy,
}
use apitest.ProxyStore.Reads.{follow, follow_all}
use apitest.ProxyStore.Writes.{read_at-write}

abbrev get_a : Request
get_a = record { method = "GET"; path = "/a"; headers = []; query = ""; body = "" }

abbrev entry : ℕ → StoreEntry
entry n = record { offset = n; request = get_a }

abbrev two : Store
two = record { name = "test"; mode = "passthru"; entries = entry 0 ∷ entry 1 ∷ [] }

new_proxy-one :
    new_proxy (("test", record { mode = "passthru" }) ∷ [])
    ≡ ("test", record { name = "test"; mode = "passthru"; entries = [] }) ∷ []
unfolding new_proxy
new_proxy-one = refl

follow_all_example : follow 2 (entry 0 ∷ entry 1 ∷ []) 0 ≡ some (get_a ∷ get_a ∷ [], 0)
follow_all_example = follow_all (entry 0) (entry 1 ∷ [])

read_at-write_example :
    (o : ℕ) × ((write get_a (some "x") two).0 ≡ at_offset o)
    × (read_at ((write get_a (some "x") two).1.entries ++ []) (some (pos o))
        ≡ page (record get_a { body = "x" }) (o + 1 + 0) (next_offset o (o + 1 + 0)))
read_at-write_example = read_at-write get_a "x" two []

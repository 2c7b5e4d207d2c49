-- ===== src/ProxyStore.antt =====
-- internal/httpproxy: the store of a proxy, which keeps the requests that it is sent and gives them
-- back one at a time. What is written to the response is the result; a failed write is left out.
pub mod Reads
pub mod Writes
use apitest.Base.{
  ℕ, suc, ◌+◌, Bool, true, false, String, Option, none, some, List, [], ◌∷◌, ◌++◌, length,
  get_elem?, leb, str_eq, if◌then◌else◌,
}
use apitest.Base.Dict.{Dict}
use apitest.Base.Int.{ℤ, pos, negsuc}
use apitest.Json.Number.{parse_int}

pub record Request : Type 0 where
  pub method : String
  pub path : String
  pub headers : Dict (List String)
  -- as Query.Encode() has it
  pub query : String
  pub body : String

pub record StoreEntry : Type 0 where
  pub offset : ℕ
  pub request : Request

pub record Store : Type 0 where
  pub name : String
  pub mode : String
  -- Data
  pub entries : List StoreEntry

pub record StoreConfig : Type 0 where
  pub mode : String

-- httpproxy.New: one store for each configuration.
unfoldable pub new_proxy : Dict StoreConfig → Dict Store
new_proxy [] = []
new_proxy ((k, v) ∷ cfg) = (k, record { name = k; mode = v.mode; entries = [] }) ∷ new_proxy cfg

pub data Written : Type 0 where
  at_offset : ℕ → Written
  body_error : Written

-- The body is read from the network, and `none` where that fails.
unfoldable pub write : Request → Option String → Store → Written × Store
write req none st = (body_error, st)
write req (some b) st =
    let offset = length st.entries in
    let entry : StoreEntry = record { offset = offset; request = record req { body = b } } in
    (at_offset offset, record st { entries = st.entries ++ entry ∷ [] })

-- `page` has X-Apitest-Proxy-Store-Count and -Next-Offset beside the request.
pub data Answer : Type 0 where
  page : Request → ℕ → ℕ → Answer
  invalid_offset : Answer
  offset_too_high : ℤ → ℕ → Answer
  panic : Answer

-- No offset is offset 0; otherwise strconv.Atoi.
unfoldable pub requested : String → Option ℤ
requested s = if str_eq s "" then some (pos 0) else parse_int s

unfoldable pub next_offset : ℕ → ℕ → ℕ
next_offset offset count = if leb count (offset + 1) then 0 else offset + 1

unfoldable pub page_at : ℕ → ℕ → Option StoreEntry → Answer
unfolding next_offset
page_at offset count none = panic
page_at offset count (some e) = page e.request count (next_offset offset count)

-- `offset >= count` holds for no negative offset, which then indexes out of range.
unfoldable pub read_at : List StoreEntry → Option ℤ → Answer
unfolding page_at
read_at entries none = invalid_offset
read_at entries (some (pos n)) =
    if leb (length entries) n
    then offset_too_high (pos n) (length entries)
    else page_at n (length entries) (get_elem? entries n)
read_at entries (some (negsuc n)) = panic

unfoldable pub read : Store → String → Answer
unfolding read_at requested
read st offset = read_at st.entries (requested offset)

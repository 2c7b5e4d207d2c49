-- ===== src/Smtp/Server/Indexed.antt =====
-- A message stands at its index, whoever adds to the server, and the index is how it is retrieved.
use apitest.Base.{
  ℕ, zero, suc, ◌+◌, ◌≡◌, ◌<◌, refl, sym, subst, Bool, true, false, String, some, List, [], ◌∷◌,
  ◌++◌, Outcome, ok, err, length, get_elem?, leb, arith, str_eq, if◌then◌else◌,
}
use apitest.Base.Int.{ℤ, pos}
use apitest.Smtp.{ReceivedMessage, Mime}
use apitest.Smtp.Message.{
  Parsed, parsed, failed, panicked, exhausted, lift, limit, or_default, new_message,
  new_message_from_parsed, new_content, parsing_message,
}
use apitest.Smtp.Message.Results.{Post, bind-Post, lift-Post, Post-any}
use apitest.Smtp.Posts.{Posted, append_posted, store_posted, post_message, posted_message, crlf}
use apitest.Smtp.Server.{
  Server, Session, found, append_message, received_message, message_at, receive, store_message,
}

-- The messages stand at their indices, from `k` on.
abbrev pub IsIndexed : ℕ → List ReceivedMessage → Type 0
IsIndexed k [] = Unit {0}
IsIndexed k (m ∷ ms) = (m.index ≡ k) × IsIndexed (suc k) ms

append_IsIndexed :
    (k : ℕ) (ms : List ReceivedMessage) (m : ReceivedMessage)
    → IsIndexed k ms
    → m.index ≡ k + length ms
    → IsIndexed k (ms ++ m ∷ [])
append_IsIndexed k [] m h i = (omega (arith, i), tt)
append_IsIndexed k (x ∷ ms) m (hx, h) i = (hx, append_IsIndexed (suc k) ms m h (omega (arith, i)))

module _ (mime : Mime) where
  -- One thing that happens to the server: a message of a session, or one that is posted.
  pub data Event : Type 0 where
    received : ℕ → ℕ → String → Session → Event
    posted : ℕ → ℕ → String → (ℤ → Outcome String String) → Event

  abbrev pub handle : Event → Server → Server
  handle (received fuel now r sess) s = (receive mime fuel now r sess s).1
  handle (posted fuel now method read) s = (post_message mime fuel now method read s).1

  abbrev pub handle_all : List Event → Server → Server
  handle_all [] s = s
  handle_all (e ∷ es) s = handle_all es (handle e s)

  new_message-index :
      (fuel index : ℕ) (from : String) (to : List String) (raw : String) (now : ℕ) (max : ℤ)
      → Post (Unit {0}) (λ m. m.index ≡ index) (new_message mime fuel index from to raw now max)
  unfolding new_message new_message_from_parsed
  new_message-index fuel index from to raw now max =
      bind-Post (Unit {0}) (λ m. Unit {0}) (λ m. m.index ≡ index)
        (lift parsing_message (mime.read_message (limit (or_default max) raw))) _
        (lift-Post (Unit {0}) (λ m. Unit {0}) parsing_message
          (mime.read_message (limit (or_default max) raw)) (λ m e. tt))
        (λ (h, b) _.
          bind-Post (Unit {0}) (λ c. Unit {0}) (λ m. m.index ≡ index)
            (new_content mime fuel (or_default max) h b) _
            (Post-any (new_content mime fuel (or_default max) h b)) (λ c _. refl))

  store_message-IsIndexed :
      (m : Parsed ReceivedMessage) (s : Server)
      → Post (Unit {0}) (λ m. m.index ≡ length s.received_messages) m
      → IsIndexed 0 s.received_messages
      → IsIndexed 0 (store_message m s).1.received_messages
  unfolding store_message
  store_message-IsIndexed (parsed m) s i h =
      append_IsIndexed 0 s.received_messages m h (omega (arith, i))
  store_message-IsIndexed (failed e) s i h = h
  store_message-IsIndexed panicked s i h = h
  store_message-IsIndexed exhausted s i h = h

  if_IsIndexed :
      (b : Bool) (x y : Posted × Server)
      → IsIndexed 0 x.1.received_messages
      → IsIndexed 0 y.1.received_messages
      → IsIndexed 0 (if b then x else y).1.received_messages
  if_IsIndexed true x y h k = h
  if_IsIndexed false x y h k = k

  append_posted-IsIndexed :
      (m : Parsed ReceivedMessage) (s : Server)
      → IsIndexed 0 s.received_messages
      → IsIndexed 0 (append_posted m s).1.received_messages
  unfolding append_posted append_message
  append_posted-IsIndexed (parsed m) s h = append_IsIndexed 0 s.received_messages _ h (omega arith)
  append_posted-IsIndexed (failed e) s h = h
  append_posted-IsIndexed panicked s h = h
  append_posted-IsIndexed exhausted s h = h

  store_posted-IsIndexed :
      (fuel now : ℕ) (max : ℤ) (b : Outcome String String) (s : Server)
      → IsIndexed 0 s.received_messages
      → IsIndexed 0 (store_posted mime fuel now max b s).1.received_messages
  unfolding store_posted
  store_posted-IsIndexed fuel now max (err e) s h = h
  store_posted-IsIndexed fuel now max (ok raw) s h =
      append_posted-IsIndexed (posted_message mime fuel now max (crlf raw)) s h

  handle-IsIndexed :
      (e : Event) (s : Server)
      → IsIndexed 0 s.received_messages
      → IsIndexed 0 (handle e s).received_messages
  unfolding receive post_message
  handle-IsIndexed (received fuel now r sess) s h =
      let index = length s.received_messages in
      store_message-IsIndexed
        (new_message mime fuel index sess.from sess.rcpt_to (limit s.max_message_size r) now
          s.max_message_size)
        s
        (new_message-index fuel index sess.from sess.rcpt_to (limit s.max_message_size r) now
          s.max_message_size)
        h
  handle-IsIndexed (posted fuel now method read) s h =
      let max = or_default s.max_message_size in
      if_IsIndexed (str_eq method "POST") _ _ (store_posted-IsIndexed fuel now max (read max) s h) h

  handle_all-IsIndexed :
      (es : List Event) (s : Server)
      → IsIndexed 0 s.received_messages
      → IsIndexed 0 (handle_all es s).received_messages
  handle_all-IsIndexed [] s h = h
  handle_all-IsIndexed (e ∷ es) s h = handle_all-IsIndexed es (handle e s) (handle-IsIndexed e s h)

get_elem?-IsIndexed :
    (k : ℕ) (ms : List ReceivedMessage) (n : ℕ)
    → IsIndexed k ms
    → n < length ms
    → (m : ReceivedMessage) × (get_elem? ms n ≡ some m) × (m.index ≡ k + n)
get_elem?-IsIndexed k [] n h l = absurd (omega arith)
get_elem?-IsIndexed k (m ∷ ms) zero h l = (m, refl, omega (arith, h.0))
get_elem?-IsIndexed k (m ∷ ms) (suc n) h l =
    let (m', got, i) = get_elem?-IsIndexed (suc k) ms n h.1 (omega arith) in
    (m', got, omega (arith, i))

module _ (mime : Mime) where
  -- Whatever a server without messages receives, from sessions and from posts, in whatever order: the
  -- message that is then retrieved by a number below the count has that number as its index.
  pub received_message-handle_all :
      (es : List (Event mime)) (s : Server) (n : ℕ)
      → s.received_messages ≡ []
      → n < length (handle_all mime es s).received_messages
      → (m : ReceivedMessage) × (received_message (handle_all mime es s) (pos n) ≡ found m)
        × (m.index ≡ n)
  unfolding received_message message_at
  received_message-handle_all es s n e l =
      let start : IsIndexed 0 s.received_messages = subst (IsIndexed 0) (sym e) tt in
      let (m, got, i) =
        get_elem?-IsIndexed 0 (handle_all mime es s).received_messages n
          (handle_all-IsIndexed mime es s start) l in
      let within : leb (length (handle_all mime es s).received_messages) n ≡ false =
        ground (arith, l) in
      (m, rw (within, got), omega (arith, i))

-- ===== src/Smtp/Handler/Panics.antt =====
-- When a request makes the handler of the mail server panic, posted messages included.
use apitest.Base.{
  ℕ, ◌≡◌, ◌⊎◌, inl, inr, refl, true, String, List, Outcome, ok, err, str_eq, Bool-cases,
}
use apitest.Base.Int.{ℤ}
use apitest.Smtp.{ReceivedMessage, Mime}
use apitest.Smtp.Message.{Parsed, parsed, failed, exhausted, or_default}
use apitest.Smtp.Message as Message
use apitest.Smtp.Search.{Regexp}
use apitest.Smtp.Server.{Server}
use apitest.Smtp.Routes.{panicked, message_index, trim_prefix, split_from, serve}
use apitest.Smtp.Routes.Panics.{HasNegative, if-Sound, index_answer-Sound, route_parts-panicked}
use apitest.Smtp.Posts.{post_message, crashed, crlf, posted_message, store_posted, append_posted}
use apitest.Smtp.Handler.{Reply, answered, posted, is_post, serve_http}

abbrev pub IsPanic : Reply → Type 0
IsPanic (answered a) = a ≡ panicked
IsPanic (posted p) = p ≡ crashed

-- The parts of a path behind the prefix.
abbrev pub path_parts : String → String → List String
path_parts prefix path = split_from "" (trim_prefix (trim_prefix path prefix) "/")

serve-panicked :
    (found : Outcome String (List Regexp)) (prefix : String) (s : Server) (path : String)
    → serve found prefix s path ≡ panicked
    → HasNegative (path_parts prefix path)
unfolding serve
serve-panicked found prefix s path =
    if-Sound (HasNegative (path_parts prefix path))
      (str_eq (trim_prefix (trim_prefix path prefix) "/") "") _ _
      (index_answer-Sound found _ ReceivedMessage.content message_index s.received_messages
        (λ xs e. cc))
      (route_parts-panicked found s (path_parts prefix path))

append_posted-crashed :
    (r : Parsed ReceivedMessage) (s : Server)
    → (append_posted r s).0 ≡ crashed
    → r ≡ Message.panicked
unfolding append_posted
append_posted-crashed (parsed m) s e = cc
append_posted-crashed (failed x) s e = cc
append_posted-crashed Message.panicked s e = refl
append_posted-crashed exhausted s e = cc

module _ (mime : Mime) (fuel now : ℕ) where
  -- A message is posted that can be read and that the parser panics at.
  abbrev pub PostPanics : String → (ℤ → Outcome String String) → Server → Type 0
  PostPanics method read s =
      let max = or_default s.max_message_size in
      (str_eq method "POST" ≡ true)
      × ((raw : String) × (read max ≡ ok raw)
          × (posted_message mime fuel now max (crlf raw) ≡ Message.panicked))

  store_posted-crashed :
      (max : ℤ) (r : Outcome String String) (s : Server)
      → (store_posted mime fuel now max r s).0 ≡ crashed
      → (raw : String) × (r ≡ ok raw)
        × (posted_message mime fuel now max (crlf raw) ≡ Message.panicked)
  unfolding store_posted
  store_posted-crashed max (err x) s e = cc
  store_posted-crashed max (ok raw) s e = (raw, refl, append_posted-crashed _ s e)

  post_message-crashed :
      (method : String) (read : ℤ → Outcome String String) (s : Server)
      → (post_message mime fuel now method read s).0 ≡ crashed
      → PostPanics method read s
  unfolding post_message
  post_message-crashed method read s h = elim (Bool-cases (str_eq method "POST")) [
    | inl e ↦ (e, store_posted-crashed (or_default s.max_message_size) _ s (rw e at h))
    | inr e ↦ let no = rw e at h in cc
  ]

  -- A request makes the handler panic only if one of the parts of its path is a negative number, or
  -- if it posts a message that can be read and that the parser panics at.
  pub serve_http-IsPanic :
      (found : Outcome String (List Regexp)) (method : String) (read : ℤ → Outcome String String)
      (prefix path : String) (s : Server)
      → IsPanic (serve_http mime fuel now found method read prefix path s).0
      → HasNegative (path_parts prefix path)
        ⊎ ((is_post (serve found prefix s path) ≡ true) × PostPanics method read s)
  unfolding serve_http
  serve_http-IsPanic found method read prefix path s h =
      elim (Bool-cases (is_post (serve found prefix s path))) [
        | inl e ↦ inr (e, post_message-crashed method read s (rw e at h))
        | inr e ↦ inl (serve-panicked found prefix s path (rw e at h))
      ]

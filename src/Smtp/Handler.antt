-- ===== src/Smtp/Handler.antt =====
-- ServeHTTP of http.go, with what a posted message does to the server.
pub mod Panics
use apitest.Base.{ℕ, Bool, true, false, String, List, Outcome, if◌then◌else◌}
use apitest.Base.Int.{ℤ}
use apitest.Smtp.{Mime}
use apitest.Smtp.Search.{Regexp}
use apitest.Smtp.Server.{Server}
use apitest.Smtp.Routes.{Answer, post_message, serve}
use apitest.Smtp.Posts as Posts
use apitest.Smtp.Posts.{Posted}

pub data Reply : Type 0 where
  answered : Answer → Reply
  posted : Posted → Reply

abbrev pub is_post : Answer → Bool
is_post post_message = true
is_post _ = false

module _ (mime : Mime) where
  -- `read` reads the request's body, and `search` is what extractSearchRegexes makes of its query.
  unfoldable pub serve_http :
      ℕ
      → ℕ
      → Outcome String (List Regexp)
      → String
      → (ℤ → Outcome String String)
      → String
      → String
      → Server
      → Reply × Server
  unfolding serve Posts.post_message
  serve_http fuel now search method read prefix path s =
      let a = serve search prefix s path in
      let (p, s') = Posts.post_message mime fuel now method read s in
      if is_post a then (posted p, s') else (answered a, s)

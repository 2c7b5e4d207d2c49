-- ===== src/Smtp/Posts.antt =====
-- handlePostMessage of http.go: a message that a test posts to the mail server's HTTP interface.
pub mod Lines
use apitest.Base.{
  ℕ, Bool, false, ◌&&◌, String, Option, none, some, List, [], ◌∷◌, Outcome, ok, err, code, str_eq,
  ◌<>◌, ◌==◌, if◌then◌else◌,
}
use apitest.Base.Dict.{lookup}
use apitest.Base.Int.{ℤ}
use apitest.Smtp.{ReceivedMessage, Mime, Headers}
use apitest.Smtp.Message.{
  Parsed, parsed, failed, panicked, exhausted, ◌>>=◌, lift, MailError, parsing_message, or_default,
  new_message_from_parsed,
}
use apitest.Smtp.Server.{Server, append_message}

unfoldable pub starts_lf : String → Bool
starts_lf String.[] = false
starts_lf (String.◌∷◌ c s) = code c == b'\n'

-- bytes.ReplaceAll of CRLF by LF
unfoldable pub to_lf : String → String
unfolding starts_lf
to_lf String.[] = ""
to_lf (String.◌∷◌ c s) =
    let rest = to_lf s in if (code c == b'\r') && starts_lf s then rest else String.◌∷◌ c rest

-- bytes.ReplaceAll of LF by CRLF
unfoldable pub to_crlf : String → String
to_crlf String.[] = ""
to_crlf (String.◌∷◌ c s) =
    let rest = to_crlf s in
    if code c == b'\n' then String.◌∷◌ "\r" (String.◌∷◌ c rest) else String.◌∷◌ c rest

unfoldable pub crlf : String → String
unfolding to_lf to_crlf
crlf s = to_crlf (to_lf s)

pub data Posted : Type 0 where
  stored : Posted
  method_not_allowed : Posted
  bad_body : String → Posted
  bad_message : MailError → Posted
  crashed : Posted
  out_of_fuel : Posted

-- Header.Get: the first value, or the empty text.
unfoldable pub first_value : Option (List String) → String
first_value none = ""
first_value (some []) = ""
first_value (some (v ∷ vs)) = v

unfoldable pub values : Option (List String) → List String
values none = []
values (some vs) = vs

unfoldable pub append_posted : Parsed ReceivedMessage → Server → Posted × Server
unfolding append_message
append_posted (parsed m) s = (stored, append_message m s)
append_posted (failed e) s = (bad_message e, s)
append_posted panicked s = (crashed, s)
append_posted exhausted s = (out_of_fuel, s)

module _ (mime : Mime) where
  unfoldable pub posted_message : ℕ → ℕ → ℤ → String → Parsed ReceivedMessage
  unfolding new_message_from_parsed first_value values
  posted_message fuel now max raw = do
    (h, b) ← lift parsing_message (mime.read_message raw)
    new_message_from_parsed mime fuel 0 (first_value (lookup "From" h)) (values (lookup "To" h)) raw
        now max (h, b)

  unfoldable pub store_posted : ℕ → ℕ → ℤ → Outcome String String → Server → Posted × Server
  unfolding append_posted posted_message crlf
  store_posted fuel now max (err e) s = (bad_body e, s)
  store_posted fuel now max (ok raw) s = append_posted (posted_message fuel now max (crlf raw)) s

  -- `read` is io.ReadAll of the request's body, up to a limit.
  unfoldable pub post_message :
      ℕ → ℕ → String → (ℤ → Outcome String String) → Server → Posted × Server
  unfolding store_posted or_default
  post_message fuel now method read s =
      let max = or_default s.max_message_size in
      if str_eq method "POST"
      then store_posted fuel now max (read max) s
      else (method_not_allowed, s)

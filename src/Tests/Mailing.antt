-- ===== src/Tests/Mailing.antt =====
-- A mail server that has received messages with parts.
use apitest.Base.{
  ℕ, ◌≡◌, ◌⊎◌, ◌≤◌, ◌<◌, refl, ap, true, false, String, none, some, List, [], ◌∷◌, ◌++◌, Outcome,
  ok, err, length, has_prefix, arith, All,
}
use apitest.Base.Dict.{lookup}
use apitest.Base.Int.{pos}
use apitest.Json.{Value, int}
use apitest.Json.Number.{parse_int}
use apitest.Smtp.{Headers, Content, content, no_parts, part, ReceivedMessage, Mime, parts_list}
use apitest.Smtp.Message.{
  new_content, new_message, new_message_from_parsed, preprocess_headers, read_body, media_type,
  parts_of, boundary_of, parse_parts, limit, take_bytes, or_default,
}
use apitest.Smtp.Message.Results.{Ends, Post}
use apitest.Smtp.Message.Total.{Shrinks, size, new_content-Ends}
use apitest.Smtp.Message.Shape.{IsShaped, new_content-IsShaped}
use apitest.Smtp.Server.{Server, found, received_message, receive, append_message, store_message}
use apitest.Smtp.Server.Indexed.{Event, received, posted, handle_all, received_message-handle_all}
use apitest.Smtp.Routes.{
  route_parts, serve, trim_prefix, split_from, multipart_meta, content_body, panicked,
}
use apitest.Smtp.Routes.Addresses.{address, route_parts-Leads}
use apitest.Smtp.Routes.Panics.{HasNegative}
use apitest.Smtp.Handler.{is_post, serve_http}
use apitest.Smtp.Handler.Panics.{path_parts, PostPanics, serve_http-IsPanic}
use apitest.Smtp.Posts.{post_message, append_posted}

-- A content that is not empty has one empty part.
abbrev parts_of_text : String → List (Headers × String)
parts_of_text String.[] = []
parts_of_text (String.◌∷◌ c s) = ([], "") ∷ []

abbrev mime : Mime
mime = record {
  read_message = λ s. ok (("Content-Type", "multipart/mixed" ∷ []) ∷ ("To", "a@b.c" ∷ []) ∷ [], s);
  decode_header = λ v. some v;
  base64 = λ b. ok b;
  quoted_printable = λ b. ok b;
  parse_media_type = λ t. ok (t, ("boundary", "x") ∷ []);
  raw_parts = λ boundary b. record { raw = parts_of_text b; failure = none };
}

abbrev size_of : Outcome String String → ℕ
size_of (ok d) = size d
size_of (err e) = 0

same_size : (b d : String) → ◌≡◌ {A = Outcome String String} (ok b) (ok d) → size d ≤ size b
same_size b d h = let e : size b ≡ size d = ap size_of h in omega (arith, e)

smaller_parts : (b : String) → All (λ (h, p). size p < size b) (parts_of_text b)
smaller_parts String.[] = tt
smaller_parts (String.◌∷◌ c s) = (omega arith, tt)

abbrev mime-Shrinks : Shrinks mime
mime-Shrinks = record {
  base64 = same_size;
  quoted_printable = same_size;
  raw_parts = λ boundary b. smaller_parts b;
}

abbrev multipart_headers : Headers
multipart_headers = ("Content-Type", "multipart/mixed" ∷ []) ∷ []

new_content-Ends_example : Ends (new_content mime 9 (pos 100) multipart_headers "--x--")
new_content-Ends_example =
    new_content-Ends mime mime-Shrinks 9 (pos 100) multipart_headers "--x--" (omega arith)

abbrev inner : Content
inner = content [] "hello" "text/plain" [] false no_parts

abbrev middle : Content
middle = content [] "--y" "multipart/mixed" (("boundary", "y") ∷ []) true (part 0 inner no_parts)

abbrev outer : Content
outer =
    content (("Subject", "hi" ∷ []) ∷ []) "--x" "multipart/mixed" (("boundary", "x") ∷ []) true
      (part 0 inner (part 1 middle no_parts))

abbrev message : ReceivedMessage
message = record {
  index = 0;
  smtp_from = "a@b.c";
  smtp_rcpt_to = [];
  raw_message_data = "";
  received_at = 5;
  content = outer;
}

abbrev server : Server
server = record { received_messages = message ∷ []; max_message_size = pos 0 }

new_content-IsShaped_example :
    Post (Unit {0}) IsShaped (new_content mime 9 (pos 100) multipart_headers "--x--")
new_content-IsShaped_example = new_content-IsShaped mime 9 (pos 100) multipart_headers "--x--"

route_parts-Leads_example :
    (route_parts (ok []) server ("0" ∷ address ("1" ∷ "0" ∷ []))
      ≡ multipart_meta (record { index = 0; content = inner }))
    × (route_parts (ok []) server ("0" ∷ address ("1" ∷ "0" ∷ []) ++ "body" ∷ [])
        ≡ content_body inner)
unfolding parse_int received_message parts_list
route_parts-Leads_example =
    route_parts-Leads (ok []) server "0" 0 message ("1" ∷ "0" ∷ []) (1 ∷ 0 ∷ [])
      (record { index = 0; content = inner }) refl refl refl refl (refl, (refl, tt))
      (
        record { index = 1; content = middle },
        record { multi = refl; at = refl },
        record { multi = refl; at = refl },
      )

negative-panics : route_parts (ok []) server ("-1" ∷ []) ≡ panicked
unfolding route_parts parse_int
negative-panics = refl

negative_part-panics :
    route_parts (ok []) server ("0" ∷ "multipart" ∷ "-1" ∷ "body" ∷ []) ≡ panicked
unfolding route_parts parse_int
negative_part-panics = refl

serve_http-IsPanic_example :
    HasNegative (path_parts "/smtp" "/smtp/0/multipart/-1/body")
    ⊎ ((is_post (serve (ok []) "/smtp" server "/smtp/0/multipart/-1/body") ≡ true)
        × PostPanics mime 9 5 "GET" (λ n. ok "") server)
unfolding serve_http trim_prefix split_from parse_int has_prefix
serve_http-IsPanic_example =
    serve_http-IsPanic mime 9 5 (ok []) "GET" (λ n. ok "") "/smtp" "/smtp/0/multipart/-1/body"
      server refl

abbrev show_time : ℕ → Value
show_time n = int (pos n)

abbrev events : List (Event mime)
events =
    received 9 5 "hi" (record { from = ""; rcpt_to = [] })
    ∷ posted 9 6 "GET" (λ n. ok "x")
    ∷ posted 9 7 "POST" (λ n. ok "x")
    ∷ []

abbrev fresh : Server
fresh = record { received_messages = []; max_message_size = pos 100 }

two_received : length (handle_all mime events fresh).received_messages ≡ 2
unfolding receive post_message append_posted append_message store_message new_message
    new_message_from_parsed new_content preprocess_headers read_body media_type parts_of boundary_of
    parse_parts limit take_bytes or_default lookup has_prefix
two_received = refl

received_message-handle_all_example :
    (m : ReceivedMessage) × (received_message (handle_all mime events fresh) (pos 1) ≡ found m)
    × (m.index ≡ 1)
received_message-handle_all_example =
    received_message-handle_all mime events fresh 1 refl (omega (arith, two_received))

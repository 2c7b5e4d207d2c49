-- ===== src/Smtp/Routes.antt =====
-- http.go: what a request to the mail server's HTTP interface is answered with. Pages and documents
-- are named by what they show.
pub mod Addresses
pub mod Panics
use apitest.Base.{
  ℕ, zero, suc, ◌+◌, Bool, true, false, String, Option, none, some, List, [], ◌∷◌, ◌++◌, Outcome,
  ok, err, ◌>>=◌, map, length, is_empty, get_elem?, leb, str_eq, has_prefix, code, ◌<>◌, ◌==◌,
  if◌then◌else◌,
}
use apitest.Base.Int.{ℤ, pos, negsuc}
use apitest.Json.Number.{parse_int}
use apitest.Smtp.{
  Content, Parts, ReceivedPart, ReceivedMessage, headers, is_multipart, multiparts, parts_list,
}
use apitest.Smtp.Server.{Server, Retrieved, found, no_message, panic, received_message}
use apitest.Smtp.Search.{Regexp, search_by_header, extract_search_regexes}

-- strings.TrimPrefix
unfoldable pub trim_prefix : String → String → String
trim_prefix s String.[] = s
trim_prefix String.[] (String.◌∷◌ p t) = ""
trim_prefix (String.◌∷◌ c s) (String.◌∷◌ p t) =
    if has_prefix (String.◌∷◌ c s) (String.◌∷◌ p t) then trim_prefix s t else String.◌∷◌ c s

-- strings.Split(s, "/"), with the text before `s` up to the last slash.
unfoldable pub split_from : String → String → List String
split_from part String.[] = part ∷ []
split_from part (String.◌∷◌ c s) =
    if code c == b'/' then part ∷ split_from "" s else split_from (part <> String.◌∷◌ c "") s

pub data Answer : Type 0 where
  message_index : List ReceivedMessage → Answer
  gui_index : Answer
  gui_message message_meta message_raw : ReceivedMessage → Answer
  content_body : Content → Answer
  multipart_index : List ReceivedPart → Answer
  multipart_meta : ReceivedPart → Answer
  -- a call of the handler of Posts, which Handler makes
  post_message : Answer
  -- 400
  bad_regex bad_message_index bad_part_index : String → Answer
  -- 404
  missing_message missing_part : ℤ → Answer
  no_multipart not_found : Answer
  -- 500
  empty_path : Answer
  -- an index out of range
  panicked : Answer

unfoldable pub part_at : ℕ → Option ReceivedPart → (ReceivedPart → Answer) → Answer
part_at n none next = panicked
part_at n (some p) next = next p

-- `partIdx >= len(multiparts)` holds for no negative index.
unfoldable pub with_part : Content → String → Option ℤ → (ReceivedPart → Answer) → Answer
unfolding part_at
with_part c s none next = bad_part_index s
with_part c s (some (pos n)) next =
    if leb (length (parts_list (multiparts c))) n
    then missing_part (pos n)
    else part_at n (get_elem? (parts_list (multiparts c)) n) next
with_part c s (some (negsuc n)) next = panicked

unfoldable pub with_message : Retrieved → (ReceivedMessage → Answer) → Answer
with_message (found m) next = next m
with_message (no_message n) next = missing_message n
with_message panic next = panicked

-- retrieveMessage
unfoldable pub retrieve_message : Server → String → Option ℤ → (ReceivedMessage → Answer) → Answer
unfolding with_message received_message
retrieve_message s text none next = bad_message_index text
retrieve_message s text (some n) next = with_message (received_message s n) next

-- `search` is what extractSearchRegexes makes of the query.
module _ (search : Outcome String (List Regexp)) where
  unfoldable pub found_or_all : {T : Type 0} → (T → Content) → List T → List Regexp → List T
  unfolding search_by_header
  found_or_all content_of ts rxs = if is_empty rxs then ts else search_by_header content_of ts rxs

  unfoldable pub index_answer :
      {T : Type 0}
      → (T → Content)
      → (List T → Answer)
      → List T
      → Outcome String (List Regexp)
      → Answer
  unfolding found_or_all
  index_answer content_of show ts (err p) = bad_regex p
  index_answer content_of show ts (ok rxs) = show (found_or_all content_of ts rxs)

  unfoldable pub multipart_answer : Content → Answer
  unfolding index_answer parts_list
  multipart_answer c =
      if is_multipart c
      then index_answer ReceivedPart.content multipart_index (parts_list (multiparts c)) search
      else no_multipart

  unfoldable pub last_part : Content → String → Answer
  unfolding multipart_answer
  last_part c p =
      if str_eq p "body"
      then content_body c
      else if str_eq p "multipart"
      then multipart_answer c
      else not_found

  unfoldable pub part_answer : Content → String → String → (ReceivedPart → Answer) → Answer
  unfolding with_part
  part_answer c p s next =
      if str_eq p "multipart"
      then (if is_multipart c then with_part c s (parse_int s) next else no_multipart)
      else not_found

  -- subrouteContentEndpoint
  unfoldable pub subroute : Content → List String → Answer
  unfolding last_part part_answer
  subroute c [] = not_found
  subroute c (p ∷ []) = last_part c p
  subroute c (p ∷ s ∷ []) = part_answer c p s multipart_meta
  subroute c (p ∷ s ∷ q ∷ rest) = part_answer c p s (λ part. subroute part.content (q ∷ rest))

  -- routeMessageEndpoint, with the message
  unfoldable pub message_answer : ReceivedMessage → List String → Answer
  unfolding subroute
  message_answer m [] = message_meta m
  message_answer m (p ∷ []) = if str_eq p "raw" then message_raw m else subroute m.content (p ∷ [])
  message_answer m (p ∷ q ∷ rest) = subroute m.content (p ∷ q ∷ rest)

  -- routeGUIEndpoint, behind the part "gui"
  unfoldable pub route_gui : Server → List String → Answer
  unfolding retrieve_message
  route_gui s [] = gui_index
  route_gui s (i ∷ []) = retrieve_message s i (parse_int i) gui_message
  route_gui s (i ∷ p ∷ rest) = retrieve_message s i (parse_int i) (λ m. not_found)

  unfoldable pub route_parts : Server → List String → Answer
  unfolding route_gui message_answer retrieve_message
  route_parts s [] = empty_path
  route_parts s (p ∷ rest) =
      if str_eq p "gui"
      then route_gui s rest
      else if str_eq p "postmessage"
      then post_message
      else retrieve_message s p (parse_int p) (λ m. message_answer m rest)

  -- ServeHTTP, for a path that path.Clean has been applied to.
  unfoldable pub serve : String → Server → String → Answer
  unfolding trim_prefix split_from route_parts index_answer
  serve prefix s path =
      let p = trim_prefix (trim_prefix path prefix) "/" in
      if str_eq p ""
      then index_answer ReceivedMessage.content message_index s.received_messages search
      else route_parts s (split_from "" p)

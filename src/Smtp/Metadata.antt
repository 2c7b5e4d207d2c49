-- ===== src/Smtp/Metadata.antt =====
-- The builders of the JSON documents of http.go. A document is an association list; a key that is
-- copied into it replaces the value that stands there.
pub mod Keys
use apitest.Base.{
  ℕ, suc, Bool, String, Option, none, some, List, [], ◌∷◌, map, length, if◌then◌else◌,
}
use apitest.Base.Dict.{Dict, lookup, insert}
use apitest.Base.Int.{pos}
use apitest.Json.{Value, str, bool, int, object, array, of_fields, of_items}
use apitest.Smtp.{
  Headers, Content, content, Parts, no_parts, part, ReceivedMessage, ReceivedPart, headers,
  is_multipart,
}

-- The number of bytes.
unfoldable pub size : String → ℕ
size String.[] = 0
size (String.◌∷◌ c s) = suc (size s)

unfoldable pub strings : List String → Value
strings ss = array (of_items (map str ss))

unfoldable pub header_values : Headers → Dict Value
unfolding strings
header_values [] = []
header_values ((k, vs) ∷ hs) = (k, strings vs) ∷ header_values hs

unfoldable pub param_values : Dict String → Dict Value
param_values [] = []
param_values ((k, v) ∷ ps) = (k, str v) ∷ param_values ps

-- maps.Copy(out, new)
unfoldable pub copy : Dict Value → Dict Value → Dict Value
copy out [] = out
copy out ((k, v) ∷ new) = insert k v (copy out new)

-- buildContentMeta, without what is copied for a multipart content.
unfoldable pub plain_meta : String → Bool → String → Dict String → Headers → Dict Value
unfolding header_values param_values size
plain_meta b multi typ params hs =
    ("bodySize", int (pos (size b)))
    ∷ ("isMultipart", bool multi)
    ∷ ("contentType", str typ)
    ∷ ("contentTypeParams", object (of_fields (param_values params)))
    ∷ ("headers", object (of_fields (header_values hs)))
    ∷ []

unfoldable pub index_of : List Value → Dict Value
index_of metas =
    ("multipartsCount", int (pos (length metas))) ∷ ("multiparts", array (of_items metas)) ∷ []

unfoldable mutual
  unfolding plain_meta copy index_of

  pub build_content_meta : Content → Dict Value
  build_content_meta (content hs b typ params multi parts) =
      let metas = build_part_metas parts in
      if multi
      then copy (plain_meta b multi typ params hs) (index_of metas)
      else plain_meta b multi typ params hs

  -- The loop of buildMultipartIndex, with buildMultipartMeta of each part.
  pub build_part_metas : Parts → List Value
  build_part_metas no_parts = []
  build_part_metas (part i c ps) =
      object (of_fields (copy (("idx", int (pos i)) ∷ []) (build_content_meta c)))
      ∷ build_part_metas ps

unfoldable pub build_multipart_meta : ReceivedPart → Dict Value
unfolding copy build_content_meta
build_multipart_meta p = copy (("idx", int (pos p.index)) ∷ []) (build_content_meta p.content)

unfoldable pub build_multipart_index : List ReceivedPart → Dict Value
unfolding index_of build_multipart_meta
build_multipart_index ps = index_of (map (λ p. object (of_fields (build_multipart_meta p))) ps)

unfoldable pub with_header : String → Option (List String) → Dict Value → Dict Value
unfolding strings
with_header k none out = out
with_header k (some vs) out = insert k (strings vs) out

unfoldable pub with_subject : Option (List String) → Dict Value → Dict Value
with_subject (some (s ∷ [])) out = insert "subject" (str s) out
with_subject vs out = out

-- `show_time` is the JSON form of a time.
module _ (show_time : ℕ → Value) where
  unfoldable pub build_message_basic_meta : ReceivedMessage → Dict Value
  unfolding with_header with_subject strings
  build_message_basic_meta m =
      let hs = headers m.content in
      with_subject (lookup "Subject" hs) (
        with_header "to" (lookup "To" hs) (
          with_header "from" (lookup "From" hs) (
            ("idx", int (pos m.index))
            ∷ ("isMultipart", bool (is_multipart m.content))
            ∷ ("receivedAt", show_time m.received_at)
            ∷ ("smtpFrom", str m.smtp_from)
            ∷ ("smtpRcptTo", strings m.smtp_rcpt_to)
            ∷ [])))

  unfoldable pub build_message_full_meta : ReceivedMessage → Dict Value
  unfolding copy build_message_basic_meta build_content_meta
  build_message_full_meta m = copy (build_message_basic_meta m) (build_content_meta m.content)

  unfoldable pub message_metas : List ReceivedMessage → List Value
  message_metas [] = []
  message_metas (m ∷ ms) = object (of_fields (build_message_basic_meta m)) ∷ message_metas ms

  -- The document of handleMessageIndex, for the messages that it lists.
  unfoldable pub build_message_index : List ReceivedMessage → Dict Value
  unfolding message_metas
  build_message_index ms =
      ("count", int (pos (length ms))) ∷ ("messages", array (of_items (message_metas ms))) ∷ []

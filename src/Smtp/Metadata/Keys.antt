-- ===== src/Smtp/Metadata/Keys.antt =====
-- What stands under the keys of a message's document.
use apitest.Base.{
  ℕ, suc, ◌≡◌, refl, ap, ◌∙◌, Bool, true, false, String, Option, none, some, List, [], ◌∷◌, length,
  str_eq, if◌then◌else◌,
}
use apitest.Base.Dict.{Dict, lookup, insert, lookup-insert}
use apitest.Base.Int.{pos}
use apitest.Json.{Value, int}
use apitest.Smtp.{
  Content, content, Parts, no_parts, part, ReceivedMessage, body, headers, is_multipart, multiparts,
  parts_list,
}
use apitest.Smtp.Metadata.{
  size, copy, plain_meta, index_of, build_content_meta, build_part_metas, build_message_basic_meta,
  build_message_full_meta, with_header, with_subject,
}

abbrev or_else : Option Value → Option Value → Option Value
or_else (some v) w = some v
or_else none w = w

or_else-none : (o : Option Value) → or_else o none ≡ o
or_else-none none = refl
or_else-none (some v) = refl

if_or_else :
    (b : Bool) (v : Value) (x y z : Option Value)
    → x ≡ or_else y z
    → (if b then some v else x) ≡ or_else (if b then some v else y) z
if_or_else true v x y z h = refl
if_or_else false v x y z h = h

lookup-copy :
    (k : String) (out new : Dict Value)
    → lookup k (copy out new) ≡ or_else (lookup k new) (lookup k out)
unfolding copy lookup
lookup-copy k out [] = refl
lookup-copy k out ((j, v) ∷ new) =
    lookup-insert (copy out new) j k v ∙ if_or_else (str_eq j k) v _ _ _ (lookup-copy k out new)

length-build_part_metas : (ps : Parts) → length (build_part_metas ps) ≡ length (parts_list ps)
unfolding build_part_metas parts_list
length-build_part_metas no_parts = refl
length-build_part_metas (part i c ps) = ap suc (length-build_part_metas ps)

content_meta_idx : (c : Content) → lookup "idx" (build_content_meta c) ≡ none
unfolding build_content_meta plain_meta index_of copy lookup insert
content_meta_idx (content hs b typ params true parts) = refl
content_meta_idx (content hs b typ params false parts) = refl

content_meta_size :
    (c : Content) → lookup "bodySize" (build_content_meta c) ≡ some (int (pos (size (body c))))
unfolding build_content_meta plain_meta index_of copy lookup insert
content_meta_size (content hs b typ params true parts) = refl
content_meta_size (content hs b typ params false parts) = refl

content_meta_count :
    (c : Content)
    → lookup "multipartsCount" (build_content_meta c)
      ≡ (if is_multipart c then some (int (pos (length (parts_list (multiparts c))))) else none)
unfolding build_content_meta plain_meta index_of copy lookup insert
content_meta_count (content hs b typ params true parts) =
    ap (λ n. some (int (pos n))) (length-build_part_metas parts)
content_meta_count (content hs b typ params false parts) = refl

lookup-with_header :
    (k asked : String) (vs : Option (List String)) (out : Dict Value)
    → str_eq k asked ≡ false
    → lookup asked (with_header k vs out) ≡ lookup asked out
unfolding with_header
lookup-with_header k asked none out h = refl
lookup-with_header k asked (some vs) out h = lookup-insert out k asked _ ∙ rw h

lookup-with_subject :
    (asked : String) (vs : Option (List String)) (out : Dict Value)
    → str_eq "subject" asked ≡ false
    → lookup asked (with_subject vs out) ≡ lookup asked out
unfolding with_subject
lookup-with_subject asked none out h = refl
lookup-with_subject asked (some []) out h = refl
lookup-with_subject asked (some (s ∷ [])) out h = lookup-insert out "subject" asked _ ∙ rw h
lookup-with_subject asked (some (s ∷ t ∷ ss)) out h = refl

module _ (show_time : ℕ → Value) where
  basic_meta-headers :
      (k : String) (hs : Dict (List String)) (out : Dict Value)
      → str_eq "subject" k ≡ false
      → str_eq "to" k ≡ false
      → str_eq "from" k ≡ false
      → lookup k (
          with_subject
            (lookup "Subject" hs)
            (with_header "to" (lookup "To" hs) (with_header "from" (lookup "From" hs) out)))
        ≡ lookup k out
  basic_meta-headers k hs out s t f =
      lookup-with_subject k (lookup "Subject" hs) _ s
      ∙ (lookup-with_header "to" k (lookup "To" hs) _ t
          ∙ lookup-with_header "from" k (lookup "From" hs) out f)

  basic_meta_idx :
      (m : ReceivedMessage)
      → lookup "idx" (build_message_basic_meta show_time m) ≡ some (int (pos m.index))
  unfolding build_message_basic_meta lookup
  basic_meta_idx m = basic_meta-headers "idx" (headers m.content) _ refl refl refl

  basic_meta_count :
      (m : ReceivedMessage) → lookup "multipartsCount" (build_message_basic_meta show_time m) ≡ none
  unfolding build_message_basic_meta lookup
  basic_meta_count m = basic_meta-headers "multipartsCount" (headers m.content) _ refl refl refl

  -- The document of a message shows under idx the index of the message, under bodySize the number of
  -- bytes of its body, and under multipartsCount the number of its parts, if it is a multipart
  -- message, and nothing otherwise, whatever its headers are.
  pub build_message_full_meta_lem :
      (m : ReceivedMessage)
      → (lookup "idx" (build_message_full_meta show_time m) ≡ some (int (pos m.index)))
        × (lookup "bodySize" (build_message_full_meta show_time m)
            ≡ some (int (pos (size (body m.content)))))
        × (lookup "multipartsCount" (build_message_full_meta show_time m) ≡ (
            if is_multipart m.content
            then some (int (pos (length (parts_list (multiparts m.content)))))
            else none))
  unfolding build_message_full_meta
  build_message_full_meta_lem m =
      let basic = build_message_basic_meta show_time m in
      let of_content = build_content_meta m.content in
      (
        lookup-copy "idx" basic of_content ∙ rw (content_meta_idx m.content, basic_meta_idx m),
        lookup-copy "bodySize" basic of_content ∙ rw (content_meta_size m.content),
        lookup-copy "multipartsCount" basic of_content
            ∙ (rw (basic_meta_count m) (or_else-none (lookup "multipartsCount" of_content))
                ∙ content_meta_count m.content),
      )

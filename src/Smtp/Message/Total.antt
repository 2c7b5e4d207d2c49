-- ===== src/Smtp/Message/Total.antt =====
-- The parser of messages ends: the parts of a content are shorter than the content.
use apitest.Base.{
  ℕ, zero, suc, ◌≤◌, ◌<◌, ◌≡◌, Bool, true, false, String, Option, none, some, List, [], ◌∷◌, ok,
  str_eq, All, has_prefix, arith,
}
use apitest.Base.Dict.{Dict, lookup}
use apitest.Base.Int.{ℤ, pos, negsuc}
use apitest.Smtp.{Headers, Content, Mime}
use apitest.Smtp.Message.{
  Parsed, take_bytes, limit, or_default, preprocess_headers, decode_body, read_body, media_type,
  boundary_of, parse_parts, parts_of, new_content, reading_body, parsing_content_type,
}
use apitest.Smtp.Message.Results.{Post, Ends, bind-Post, if-Post, lift-Post}

abbrev pub size : String → ℕ
size String.[] = 0
size (String.◌∷◌ c s) = suc (size s)

-- What the program relies on: a decoder gives no more than it reads, and a part is shorter than the
-- content, which has its boundary too.
pub record Shrinks (mime : Mime) : Type 0 where
  pub base64 : (b d : String) → mime.base64 b ≡ ok d → size d ≤ size b
  pub quoted_printable : (b d : String) → mime.quoted_printable b ≡ ok d → size d ≤ size b
  pub raw_parts :
      (boundary b : String) → All (λ (h, p). size p < size b) (mime.raw_parts boundary b).raw

size-take_bytes : (n : ℕ) (s : String) → size (take_bytes n s) ≤ size s
unfolding take_bytes
size-take_bytes zero s = omega arith
size-take_bytes (suc n) String.[] = omega arith
size-take_bytes (suc n) (String.◌∷◌ c s) = omega (arith, size-take_bytes n s)

size-limit : (n : ℤ) (s : String) → size (limit n s) ≤ size s
unfolding limit
size-limit (pos n) s = size-take_bytes n s
size-limit (negsuc n) s = omega arith

module _ (mime : Mime) (shrinks : Shrinks mime) where
  decode_body-Post : (enc b : String) → Post ⊥ (λ d. size d ≤ size b) (decode_body mime enc b)
  unfolding decode_body
  decode_body-Post enc b =
      if-Post ⊥ (λ d. size d ≤ size b) (str_eq enc "base64") _ _
        (lift-Post ⊥ (λ d. size d ≤ size b) reading_body (mime.base64 b) (λ d. shrinks.base64 b d))
        (if-Post ⊥ (λ d. size d ≤ size b) (str_eq enc "quoted-printable") _ _
          (lift-Post ⊥ (λ d. size d ≤ size b) reading_body (mime.quoted_printable b)
            (λ d. shrinks.quoted_printable b d))
          (omega arith))

  read_body-Post :
      (encs : Option (List String)) (b : String)
      → Post ⊥ (λ d. size d ≤ size b) (read_body mime encs b)
  unfolding read_body
  read_body-Post none b = omega arith
  read_body-Post (some []) b = tt
  read_body-Post (some (enc ∷ encs)) b = decode_body-Post enc b

  media_type-Ends : (typ : Option (List String)) → Ends (media_type mime typ)
  unfolding media_type
  media_type-Ends none = tt
  media_type-Ends (some []) = tt
  media_type-Ends (some (t ∷ ts)) =
      if-Post ⊥ (λ a. Unit {0}) (str_eq t "") _ _ tt
        (lift-Post ⊥ (λ a. Unit {0}) parsing_content_type (mime.parse_media_type t) (λ a h. tt))

  boundary_of-Ends : (b : Option String) → Ends (boundary_of mime b)
  unfolding boundary_of
  boundary_of-Ends none = tt
  boundary_of-Ends (some b) = tt

  parse_parts-Ends :
      (build : Headers → String → Parsed Content) (bound i : ℕ) (raw : List (Headers × String))
      (e : Option String)
      → All (λ (h, p). size p < bound) raw
      → ((h : Headers) (p : String) → size p < bound → Ends (build h p))
      → Ends (parse_parts mime build i raw e)
  unfolding parse_parts
  parse_parts-Ends build bound i [] none small ends = tt
  parse_parts-Ends build bound i [] (some e) small ends = tt
  parse_parts-Ends build bound i ((h, b) ∷ raw) e (hs, small) ends =
      bind-Post ⊥ (λ c. Unit {0}) (λ ps. Unit {0}) (build h b) _ (ends h b hs)
        (λ c _.
          bind-Post ⊥ (λ c. Unit {0}) (λ ps. Unit {0}) (parse_parts mime build (suc i) raw e) _
            (parse_parts-Ends build bound (suc i) raw e small ends) (λ rest _. tt))

  parts_of-Ends :
      (build : Headers → String → Parsed Content) (multi : Bool) (params : Dict String) (b : String)
      → ((h : Headers) (p : String) → size p < size b → Ends (build h p))
      → Ends (parts_of mime build multi params b)
  unfolding parts_of
  parts_of-Ends build false params b ends = tt
  parts_of-Ends build true params b ends =
      bind-Post ⊥ (λ c. Unit {0}) (λ ps. Unit {0}) (boundary_of mime (lookup "boundary" params)) _
        (boundary_of-Ends (lookup "boundary" params))
        (λ boundary _.
          parse_parts-Ends build (size b) 0 (mime.raw_parts boundary b).raw
            (mime.raw_parts boundary b).failure (shrinks.raw_parts boundary b) ends)

  -- newReceivedContent returns, with a content, an error or a panic: a number of nested calls above
  -- the size of the body is enough.
  pub new_content-Ends :
      (fuel : ℕ) (max : ℤ) (h : Headers) (b : String)
      → size b < fuel
      → Ends (new_content mime fuel max h b)
  unfolding new_content
  new_content-Ends zero max h b small = absurd (omega arith)
  new_content-Ends (suc fuel) max h b small =
      let hs = preprocess_headers mime h in
      let n = or_default max in
      bind-Post ⊥ (λ d. size d ≤ size (limit n b)) (λ c. Unit {0})
        (read_body mime (lookup "Content-Transfer-Encoding" hs) (limit n b)) _
        (read_body-Post (lookup "Content-Transfer-Encoding" hs) (limit n b))
        (λ d shorter.
          bind-Post ⊥ (λ t. Unit {0}) (λ c. Unit {0}) (media_type mime (lookup "Content-Type" hs)) _
            (media_type-Ends (lookup "Content-Type" hs))
            (λ typ _.
              bind-Post ⊥ (λ ps. Unit {0}) (λ c. Unit {0})
                (parts_of mime (new_content mime fuel n) (has_prefix typ.0 "multipart/") typ.1 d) _
                (parts_of-Ends (new_content mime fuel n) (has_prefix typ.0 "multipart/") typ.1 d
                  (λ h' p less.
                    new_content-Ends fuel n h' p
                      (omega (arith, size-limit n b, shorter, less, small))))
                (λ ps _. tt)))

-- ===== src/Smtp/Message.antt =====
-- message.go: from the bytes of a message to its tree of contents.
pub mod Results
pub mod Total
pub mod Shape
use apitest.Base.{
  ℕ, zero, suc, Bool, true, false, ◌&&◌, not, String, Option, none, some, List, [], ◌∷◌, map,
  Outcome, ok, err, str_eq, has_prefix, if◌then◌else◌,
}
use apitest.Base.Dict.{Dict, lookup}
use apitest.Base.Int.{ℤ, pos, negsuc, eq_ℤ}
use apitest.Smtp.{
  Headers, Content, content, Parts, no_parts, part, ReceivedMessage, RawParts, Mime,
  default_max_message_size,
}

pub data MailError : Type 0 where
  parsing_message reading_body parsing_content_type reading_multipart : String → MailError
  no_boundary : MailError

-- The result of a parser: `panicked` where an index is out of range, `exhausted` where the fuel is.
pub data Parsed (A : Type 0) : Type 0 where
  parsed : A → Parsed A
  failed : MailError → Parsed A
  panicked : Parsed A
  exhausted : Parsed A

infixl 5 ◌>>=◌
abbrev pub ◌>>=◌ : {A B : Type 0} → Parsed A → (A → Parsed B) → Parsed B
parsed a >>= f = f a
failed e >>= f = failed e
panicked >>= f = panicked
exhausted >>= f = exhausted

abbrev pub lift : {A : Type 0} → (String → MailError) → Outcome String A → Parsed A
lift wrap (ok a) = parsed a
lift wrap (err e) = failed (wrap e)

-- The first bytes of a text.
unfoldable pub take_bytes : ℕ → String → String
take_bytes zero s = ""
take_bytes (suc n) String.[] = ""
take_bytes (suc n) (String.◌∷◌ c s) = String.◌∷◌ c (take_bytes n s)

-- io.LimitReader: a limit below 0 lets nothing through.
unfoldable pub limit : ℤ → String → String
unfolding take_bytes
limit (pos n) s = take_bytes n s
limit (negsuc n) s = ""

unfoldable pub or_default : ℤ → ℤ
or_default n = if eq_ℤ n (pos 0) then default_max_message_size else n

module _ (mime : Mime) where
  -- A value that does not decode is left empty.
  unfoldable pub decode_value : Option String → String
  decode_value none = ""
  decode_value (some s) = s

  unfoldable pub preprocess_headers : Headers → Headers
  unfolding decode_value
  preprocess_headers [] = []
  preprocess_headers ((k, vs) ∷ rest) =
      (k, map (λ v. decode_value (mime.decode_header v)) vs) ∷ preprocess_headers rest

  -- The switch on the first Content-Transfer-Encoding; an unknown encoding is read as it is.
  unfoldable pub decode_body : String → String → Parsed String
  decode_body enc b =
      if str_eq enc "base64"
      then lift reading_body (mime.base64 b)
      else if str_eq enc "quoted-printable"
      then lift reading_body (mime.quoted_printable b)
      else parsed b

  unfoldable pub read_body : Option (List String) → String → Parsed String
  unfolding decode_body
  read_body none b = parsed b
  read_body (some []) b = panicked
  read_body (some (enc ∷ encs)) b = decode_body enc b

  unfoldable pub media_type : Option (List String) → Parsed (String × Dict String)
  media_type none = parsed ("", [])
  media_type (some []) = panicked
  media_type (some (t ∷ ts)) =
      if str_eq t "" then parsed ("", []) else lift parsing_content_type (mime.parse_media_type t)

  unfoldable pub boundary_of : Option String → Parsed String
  boundary_of none = failed no_boundary
  boundary_of (some b) = parsed b

  -- The loop over the parts, from index `i`; `build` makes the content of one.
  unfoldable pub parse_parts :
      (Headers → String → Parsed Content)
      → ℕ
      → List (Headers × String)
      → Option String
      → Parsed Parts
  parse_parts build i [] none = parsed no_parts
  parse_parts build i [] (some e) = failed (reading_multipart e)
  parse_parts build i ((h, b) ∷ raw) e = do
    c ← build h b
    rest ← parse_parts build (suc i) raw e
    parsed (part i c rest)

  unfoldable pub parts_of :
      (Headers → String → Parsed Content) → Bool → Dict String → String → Parsed Parts
  unfolding parse_parts boundary_of
  parts_of build false params b = parsed no_parts
  parts_of build true params b = do
    boundary ← boundary_of (lookup "boundary" params)
    parse_parts build 0 (mime.raw_parts boundary b).raw (mime.raw_parts boundary b).failure

  -- newReceivedContent, on fuel.
  unfoldable pub new_content : ℕ → ℤ → Headers → String → Parsed Content
  unfolding preprocess_headers read_body media_type parts_of limit or_default
  new_content zero max raw_headers b = exhausted
  new_content (suc fuel) max raw_headers b =
      let size = or_default max in
      let hs = preprocess_headers raw_headers in
      do
        body ← read_body (lookup "Content-Transfer-Encoding" hs) (limit size b)
        typ ← media_type (lookup "Content-Type" hs)
        let multi = has_prefix typ.0 "multipart/"
        parts ← parts_of (new_content fuel size) multi typ.1 body
        parsed (content hs body typ.0 typ.1 multi parts)

  unfoldable pub new_message_from_parsed :
      ℕ → ℕ → String → List String → String → ℕ → ℤ → Headers × String → Parsed ReceivedMessage
  unfolding new_content
  new_message_from_parsed fuel index from rcpt_to raw received_at max (h, b) = do
    c ← new_content fuel max h b
    parsed (record {
      index = index;
      smtp_from = from;
      smtp_rcpt_to = rcpt_to;
      raw_message_data = raw;
      received_at = received_at;
      content = c;
    })

  unfoldable pub new_message :
      ℕ → ℕ → String → List String → String → ℕ → ℤ → Parsed ReceivedMessage
  unfolding new_message_from_parsed limit or_default
  new_message fuel index from rcpt_to raw received_at max = do
    msg ← lift parsing_message (mime.read_message (limit (or_default max) raw))
    new_message_from_parsed fuel index from rcpt_to raw received_at (or_default max) msg

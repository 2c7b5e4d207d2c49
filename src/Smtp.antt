-- ===== src/Smtp.antt =====
-- internal/smtp: the messages that a test's mail server receives. Bytes are texts whose characters
-- stand for the bytes. The readers of net/mail and mime are the parameter `Mime`.
pub mod Handler
pub mod Message
pub mod Server
pub mod Search
pub mod Routes
pub mod Metadata
pub mod Posts
use apitest.Base.{ℕ, zero, suc, ◌*◌, Bool, String, Option, List, [], ◌∷◌, Outcome}
use apitest.Base.Dict.{Dict}
use apitest.Base.Int.{ℤ, pos}

abbrev pub Headers : Type 0
Headers = Dict (List String)

-- receivedContent and receivedPart. The parts of a multipart content stand in their order.
mutual
  pub data Content : Type 0 where
    -- headers, body, contentType, contentTypeParams, isMultipart, multiparts
    content : Headers → String → String → Dict String → Bool → Parts → Content

  pub data Parts : Type 0 where
    no_parts : Parts
    -- index and content
    part : ℕ → Content → Parts → Parts

abbrev pub headers : Content → Headers
headers (content h b t ps m parts) = h

abbrev pub body : Content → String
body (content h b t ps m parts) = b

abbrev pub content_type : Content → String
content_type (content h b t ps m parts) = t

abbrev pub content_type_params : Content → Dict String
content_type_params (content h b t ps m parts) = ps

abbrev pub is_multipart : Content → Bool
is_multipart (content h b t ps m parts) = m

abbrev pub multiparts : Content → Parts
multiparts (content h b t ps m parts) = parts

-- receivedPart on its own
pub record ReceivedPart : Type 0 where
  pub index : ℕ
  pub content : Content

unfoldable pub parts_list : Parts → List ReceivedPart
parts_list no_parts = []
parts_list (part i c ps) = record { index = i; content = c } ∷ parts_list ps

pub record ReceivedMessage : Type 0 where
  pub index : ℕ
  pub smtp_from : String
  pub smtp_rcpt_to : List String
  pub raw_message_data : String
  -- in ns
  pub received_at : ℕ
  pub content : Content

-- 30 MiB
abbrev pub default_max_message_size : ℤ
default_max_message_size = pos (30 * 1024 * 1024)

-- What multipart.Reader.NextRawPart gives before io.EOF: the parts, and the error that ends them.
pub record RawParts : Type 0 where
  pub raw : List (Headers × String)
  pub failure : Option String

pub record Mime : Type 0 where
  -- mail.ReadMessage
  pub read_message : String → Outcome String (Headers × String)
  -- mime.WordDecoder.DecodeHeader
  pub decode_header : String → Option String
  -- all that the decoders of base64 and quoted-printable read
  pub base64 : String → Outcome String String
  pub quoted_printable : String → Outcome String String
  -- mime.ParseMediaType
  pub parse_media_type : String → Outcome String (String × Dict String)
  -- multipart.NewReader(body, boundary), asked for its parts
  pub raw_parts : String → String → RawParts

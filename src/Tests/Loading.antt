-- ===== src/Tests/Loading.antt =====
-- A response that is compared without its body, and a body of one part.
use apitest.Base.{◌≡◌, refl, String, Option, none, some, cut_at, [], ◌∷◌, ok}
use apitest.Base.Dict.{Dict, lookup}
use apitest.Base.Int.{pos}
use apitest.Json.{str, entry, end, fields}
use apitest.Api.Response.{Response}
use apitest.Case.Loading.{responses_equal, limit_lines, zero_format}
use apitest.Case.Loading.Verdicts.{responses_equal-body}
use apitest.Json.Number.{parse_int}
use apitest.PathSpec.{parse_path_spec}
use apitest.Api.Policies.{Part, Sources, build_multipart, replace_filename}
use apitest.Api.Policies.Parts.{ArePartsOf, build_multipart-ArePartsOf}
use apitest.Tests.Hosts.{whole_host}
use apitest.Tests.Responding.{formats}

abbrev expected : Response String String
expected = record {
  status_code = none;
  headers = [];
  header_flat = [];
  cookies = [];
  body = "";
  body_control = none;
  format = zero_format;
}

abbrev got : Response String String
got = record expected { status_code = some (pos 200); body = "{}" }

lines-limited : limit_lines "a\nb\n" ("a" ∷ "b" ∷ []) (pos 1) ≡ "a\n[Limited after 1 lines]"
unfolding limit_lines
lines-limited = refl

responses_equal-body_example :
    responses_equal whole_host formats expected (record got { body = "no JSON" })
    ≡ responses_equal whole_host formats expected got
responses_equal-body_example =
    responses_equal-body whole_host formats expected got "no JSON" refl refl refl refl

abbrev sources : Sources
sources = record {
  open_file_or_url = λ path d. ok "contents";
  marshal = λ v. ok "null";
  sprintf = λ v. "";
  form_data_content_type = "multipart/form-data; boundary=b";
}

abbrev part : Part
part = record { field = "f"; file_name = "b.txt"; contents = "contents" }

abbrev multipart_header : Dict String
multipart_header = ("Content-Type", "multipart/form-data; boundary=b") ∷ []

build_multipart-ArePartsOf_example :
    (multipart_header ≡ ("Content-Type", sources.form_data_content_type) ∷ [])
    × (replace : Option String) × (replace_filename (some (str "b.txt")) ≡ ok replace)
    × ArePartsOf sources "." replace
        (("file:filename", str "b.txt") ∷ ("f", str "@a.txt") ∷ [])
        (part ∷ [])
unfolding fields lookup build_multipart parse_path_spec parse_int cut_at
build_multipart-ArePartsOf_example =
    build_multipart-ArePartsOf sources "."
      (entry "file:filename" (str "b.txt") (entry "f" (str "@a.txt") end)) multipart_header
      (part ∷ []) refl

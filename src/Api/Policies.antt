-- ===== src/Api/Policies.antt =====
-- build_policies.go: the body of a request and the headers that come with it. Files, the JSON
-- encoder, the form's encoding and the multipart writer are parameters: a multipart body is the list
-- of its parts.
pub mod Parts
use apitest.Base.{
  ℕ, Bool, true, false, String, Option, none, some, List, [], ◌∷◌, Outcome, ok, err, ◌>>=◌, str_eq,
  if◌then◌else◌,
}
use apitest.Base.Dict.{Dict, lookup, insert}
use apitest.Json.{Value, nil, str, object, fields}
use apitest.PathSpec.{PathSpec, PathError, parse_path_spec}

pub data PolicyError : Type 0 where
  filename_no_string : Value → PolicyError
  no_string : Value → PolicyError
  bad_spec : String → PathError → PolicyError
  opening marshaling : String → PolicyError
  missing_body_file : PolicyError
  -- the body is no map[string]any
  panic : PolicyError

-- The form's field, the name of the file, and its contents.
pub record Part : Type 0 where
  pub field : String
  pub file_name : String
  pub contents : String

-- util.OpenFileOrUrl with what is read of it, jsutil.Marshal, and fmt.Sprintf("%s", v).
pub record Sources : Type 0 where
  pub open_file_or_url : String → String → Outcome String String
  pub marshal : Value → Outcome String String
  pub sprintf : Value → String
  -- FormDataContentType of the multipart writer, with its boundary
  pub form_data_content_type : String

abbrev pub file_key : String
file_key = "file:filename"

unfoldable pub body_fields : Value → Outcome PolicyError (Dict Value)
unfolding fields
body_fields (object fs) = ok (fields fs)
body_fields v = err panic

unfoldable pub replace_filename : Option Value → Outcome PolicyError (Option String)
replace_filename none = ok none
replace_filename (some (str f)) = ok (some f)
replace_filename (some v) = err (filename_no_string v)

unfoldable pub parsed_spec : String → Outcome PathError PathSpec → Outcome PolicyError PathSpec
parsed_spec raw (ok spec) = ok spec
parsed_spec raw (err e) = err (bad_spec raw e)

unfoldable pub opened : Outcome String String → Outcome PolicyError String
opened (ok c) = ok c
opened (err e) = err (opening e)

unfoldable pub name_or : Option String → String → String
name_or none path = path
name_or (some f) path = f

module _ (src : Sources) (manifest_dir : String) where
  unfoldable pub spec_part : Option String → String → PathSpec → Outcome PolicyError Part
  unfolding opened name_or
  spec_part replace key spec = do
    c ← opened (src.open_file_or_url spec.path manifest_dir)
    ok (record { field = key; file_name = name_or replace spec.path; contents = c })

  unfoldable pub value_part : Option String → String → Value → Outcome PolicyError Part
  unfolding parsed_spec parse_path_spec spec_part
  value_part replace key (str raw) = do
    spec ← parsed_spec raw (parse_path_spec raw)
    spec_part replace key spec
  value_part replace key v = err (no_string v)

  -- The loop over the body, with createPart.
  unfoldable pub create_parts : Option String → Dict Value → Outcome PolicyError (List Part)
  unfolding value_part
  create_parts replace [] = ok []
  create_parts replace ((key, v) ∷ rest) =
      let others = create_parts replace rest in
      if str_eq key file_key
      then others
      else (do p ← value_part replace key v; ps ← others; ok (p ∷ ps))

  unfoldable pub build_multipart : Value → Outcome PolicyError (Dict String × List Part)
  unfolding body_fields replace_filename create_parts lookup
  build_multipart b = do
    fs ← body_fields b
    replace ← replace_filename (lookup file_key fs)
    ps ← create_parts replace fs
    ok (("Content-Type", src.form_data_content_type) ∷ [], ps)

  unfoldable pub form_text : Value → String
  form_text (str s) = s
  form_text v = src.sprintf v

  unfoldable pub form_values : Dict Value → Dict (List String) → Dict (List String)
  unfolding form_text insert
  form_values [] q = q
  form_values ((k, v) ∷ rest) q = form_values rest (insert k (form_text v ∷ []) q)

  -- The Content-Type, and the values that are encoded. A []string does not come out of JSON.
  unfoldable pub build_urlencoded : Value → Outcome PolicyError (Dict String × Dict (List String))
  unfolding body_fields form_values
  build_urlencoded b = do
    fs ← body_fields b
    ok (("Content-Type", "application/x-www-form-urlencoded") ∷ [], form_values fs [])

  unfoldable pub marshaled : Outcome String String → Outcome PolicyError String
  marshaled (ok s) = ok s
  marshaled (err e) = err (marshaling e)

  unfoldable pub regular_body : Value → Outcome PolicyError String
  unfolding marshaled
  regular_body nil = ok ""
  regular_body v = marshaled (src.marshal v)

  unfoldable pub build_regular : Value → Outcome PolicyError (Dict String × String)
  unfolding regular_body
  build_regular b = do s ← regular_body b; ok (("Content-Type", "application/json") ∷ [], s)

  -- A path that is no reference is opened as it is.
  unfoldable pub file_path : String → Outcome PathError PathSpec → String
  file_path body_file (ok spec) = spec.path
  file_path body_file (err e) = body_file

  unfoldable pub build_file : String → Outcome PolicyError (Dict String × String)
  unfolding file_path parse_path_spec opened
  build_file body_file = if str_eq body_file "" then err missing_body_file else (do
    c ← opened (src.open_file_or_url (file_path body_file (parse_path_spec body_file)) manifest_dir)
    ok ([], c))

-- ===== src/Api/Policies/Parts.antt =====
-- The parts of a multipart body.
use apitest.Base.{
  String, Option, List, [], ◌∷◌, Outcome, ok, err, str_eq, if◌then◌else◌, ◌≡◌, refl, sym, ap, ◌∙◌,
  Bool-cases, inl, inr, bind_inversion, ok-injective,
}
use apitest.Base.Dict.{Dict, lookup}
use apitest.Json.{
  Value, nil, str, object, array, number, bool, int, int64, float64, other, Fields, fields,
}
use apitest.PathSpec.{PathSpec, PathError, parse_path_spec}
use apitest.Api.Policies.{
  Part, Sources, file_key, replace_filename, parsed_spec, opened, name_or, spec_part, value_part,
  create_parts, build_multipart,
}

-- The keys that stand for a part.
abbrev pub part_keys : Dict Value → List String
part_keys [] = []
part_keys ((key, v) ∷ rest) =
    let others = part_keys rest in if str_eq key file_key then others else key ∷ others

parsed_spec-ok :
    (raw : String) (m : Outcome PathError PathSpec) (spec : PathSpec)
    → parsed_spec raw m ≡ ok spec
    → m ≡ ok spec
unfolding parsed_spec
parsed_spec-ok raw (ok s) spec h = ap (λ x. ok x) (ok-injective h)
parsed_spec-ok raw (err e) spec h = cc

opened-ok : (m : Outcome String String) (c : String) → opened m ≡ ok c → m ≡ ok c
unfolding opened
opened-ok (ok s) c h = ap (λ x. ok x) (ok-injective h)
opened-ok (err e) c h = cc

module _ (src : Sources) (manifest_dir : String) where
  -- The part of one key: its value is a reference to a file that can be read.
  abbrev pub IsPart : Option String → String → Value → Part → Type 0
  IsPart replace key v p =
      (raw : String) × (spec : PathSpec) × (v ≡ str raw)
      × (parse_path_spec raw ≡ ok spec)
      × (src.open_file_or_url spec.path manifest_dir ≡ ok p.contents)
      × (p.field ≡ key)
      × (p.file_name ≡ name_or replace spec.path)

  -- The parts stand for the keys one by one.
  abbrev pub ArePartsOf : Option String → Dict Value → List Part → Type 0
  ArePartsOf replace [] ps = ps ≡ []
  ArePartsOf replace ((key, v) ∷ rest) ps =
      if str_eq key file_key
      then ArePartsOf replace rest ps
      else ((p : Part) × (others : List Part) × (ps ≡ p ∷ others)
          × IsPart replace key v p
          × ArePartsOf replace rest others)

  spec_part-IsPart :
      (replace : Option String) (key raw : String) (spec : PathSpec) (p : Part)
      → parse_path_spec raw ≡ ok spec
      → spec_part src manifest_dir replace key spec ≡ ok p
      → IsPart replace key (str raw) p
  unfolding spec_part
  spec_part-IsPart replace key raw spec p parsed h =
      let read = src.open_file_or_url spec.path manifest_dir in
      let (c, got, made) = bind_inversion (opened read) _ h in
      let same = ok-injective made in
      (
        raw,
        spec,
        refl,
        parsed,
        opened-ok read c got ∙ ap (λ (q : Part). ok q.contents) same,
        sym (ap (λ (q : Part). q.field) same),
        sym (ap (λ (q : Part). q.file_name) same),
      )

  value_part-IsPart :
      (replace : Option String) (key : String) (v : Value) (p : Part)
      → value_part src manifest_dir replace key v ≡ ok p
      → IsPart replace key v p
  unfolding value_part
  value_part-IsPart replace key (str raw) p h =
      let (spec, parsed, made) =
        bind_inversion (parsed_spec raw (parse_path_spec raw))
          (λ s. spec_part src manifest_dir replace key s) h in
      spec_part-IsPart replace key raw spec p (parsed_spec-ok raw (parse_path_spec raw) spec parsed)
        made
  value_part-IsPart replace key nil p h = cc
  value_part-IsPart replace key (object fs) p h = cc
  value_part-IsPart replace key (array xs) p h = cc
  value_part-IsPart replace key (number n) p h = cc
  value_part-IsPart replace key (bool b) p h = cc
  value_part-IsPart replace key (int n) p h = cc
  value_part-IsPart replace key (int64 n) p h = cc
  value_part-IsPart replace key (float64 x) p h = cc
  value_part-IsPart replace key (other t) p h = cc

  create_parts-ArePartsOf :
      (replace : Option String) (fs : Dict Value) (ps : List Part)
      → create_parts src manifest_dir replace fs ≡ ok ps
      → ArePartsOf replace fs ps
  unfolding create_parts
  create_parts-ArePartsOf replace [] ps h = sym (ok-injective h)
  create_parts-ArePartsOf replace ((key, v) ∷ rest) ps h = elim (Bool-cases (str_eq key file_key)) [
    | inl e ↦ rw e (create_parts-ArePartsOf replace rest ps (rw e at h))
    | inr ne ↦
        let made = rw ne at h in
        let (p, first, others) =
          bind_inversion (value_part src manifest_dir replace key v) _ made in
        let (qs, tail, whole) =
          bind_inversion (create_parts src manifest_dir replace rest) _ others in
        rw ne (
          p,
          qs,
          sym (ok-injective whole),
          value_part-IsPart replace key v p first,
          create_parts-ArePartsOf replace rest qs tail,
        )
  ]

  -- A multipart body that is built has one part for each key of the request's body but for
  -- file:filename, in the order of the body: its value is a reference to a file that can be read,
  -- and the part has its contents, under the key, with the file name of file:filename, or the path.
  -- The one header that comes with it is the Content-Type of the multipart writer.
  pub build_multipart-ArePartsOf :
      (fs : Fields) (headers : Dict String) (ps : List Part)
      → build_multipart src manifest_dir (object fs) ≡ ok (headers, ps)
      → (headers ≡ ("Content-Type", src.form_data_content_type) ∷ [])
        × (replace : Option String) × (replace_filename (lookup file_key (fields fs)) ≡ ok replace)
        × ArePartsOf replace (fields fs) ps
  unfolding build_multipart
  build_multipart-ArePartsOf fs headers ps h =
      let (replace, named, made) =
        bind_inversion (replace_filename (lookup file_key (fields fs))) _ h in
      let (qs, created, both) =
        bind_inversion (create_parts src manifest_dir replace (fields fs)) _ made in
      let same = ok-injective both in
      (
        sym (ap (λ (x : Dict String × List Part). x.0) same),
        replace,
        named,
        create_parts-ArePartsOf replace (fields fs) ps
            (created ∙ ap (λ (x : Dict String × List Part). ok x.1) same),
      )

-- ===== src/Suite/Loading.antt =====
-- api_testsuite.go: newTestSuite and loadManifest. The manifest is read twice: the first time to
-- have it checked without the host that templates see, the second time with it.
use apitest.Base.{
  Bool, true, false, String, Option, none, some, Outcome, ok, err, ◌>>=◌, str_eq, if◌then◌else◌,
  ◌<>◌, ◌≡◌, sym, ap, ◌∙◌, bind_inversion, ok-injective,
}
use apitest.Base.Dict.{Dict}
use apitest.Json.{Value}
use apitest.Host.{Host}
use apitest.Datastore.{Datastore, set_map}

-- What a manifest sets of a suite; the rest is `M`.
pub record Manifest (M : Type 0) : Type 0 where
  pub name : String
  -- http_server.addr, if there is a server
  pub http_addr : Option String
  pub cookie_jar : Bool
  pub store : Dict Value
  pub others : M

pub record Suite (M : Type 0) : Type 0 where
  pub manifest : Manifest M
  pub name : String
  pub has_jar : Bool
  pub http_server_host : String
  pub server_url : String
  pub datastore : Datastore

pub data SuiteError : Type 0 where
  -- of the loading of the manifest
  manifest_server_url opening reading rendering unmarshaling : String → SuiteError
  replace_host manifest_addr cookie_jar server_url : String → SuiteError

-- The failure that the report's root gets, if it gets one, beside the error.
pub record Refused : Type 0 where
  pub error : SuiteError
  pub recorded : Bool

pub record Calls (M : Type 0) : Type 0 where
  -- url.Parse, and whether cookiejar.New fails
  pub parse_url : String → Outcome String String
  pub new_jar : Option String
  -- filesystem.Fs.Open and io.ReadAll of the manifest
  pub open_file : String → Outcome String String
  pub read_all : String → Outcome String String
  -- Loader.Render, with the host that the templates see and the server's URL
  pub render : String → String → Datastore → String → Outcome String String
  pub unmarshal : String → Outcome String (Manifest M)

unfoldable pub recorded_as :
    {A : Type 0} → (String → SuiteError) → Outcome String A → Outcome Refused A
recorded_as f (ok a) = ok a
recorded_as f (err e) = err (record { error = f e; recorded = true })

unfoldable pub returned_as :
    {A : Type 0} → (String → SuiteError) → Outcome String A → Outcome Refused A
returned_as f (ok a) = ok a
returned_as f (err e) = err (record { error = f e; recorded = false })

unfoldable pub or_port_80 : String → String
or_port_80 addr = if str_eq addr "" then ":80" else addr

module _ {M : Type 0} (host : Host) (calls : Calls M) (path url : String) (ds : Datastore) where
  -- loadManifest, with the host of the suite.
  unfoldable pub load_manifest : String → Outcome Refused String
  unfolding recorded_as
  load_manifest http_host = do
    server ← recorded_as manifest_server_url (calls.parse_url url)
    file ← recorded_as opening (calls.open_file path)
    tmpl ← recorded_as reading (calls.read_all file)
    recorded_as rendering (calls.render http_host server ds tmpl)

  unfoldable pub read_manifest : String → Outcome Refused (Manifest M)
  unfolding load_manifest recorded_as
  read_manifest http_host = do
    text ← load_manifest http_host
    recorded_as unmarshaling (calls.unmarshal text)

  -- The host is parsed and the result dropped: only the error matters.
  unfoldable pub check_replace_host : String → Outcome Refused String
  unfolding returned_as
  check_replace_host replace =
      if str_eq replace ""
      then ok ""
      else returned_as replace_host (calls.parse_url ("//" <> replace))

  unfoldable pub check_addr : Option String → Outcome Refused String
  unfolding returned_as or_port_80
  check_addr none = ok ""
  check_addr (some addr) = returned_as manifest_addr (calls.parse_url ("//" <> or_port_80 addr))

  unfoldable pub jar_error : Option String → Outcome Refused Bool
  jar_error none = ok true
  jar_error (some e) = err (record { error = cookie_jar e; recorded = false })

  unfoldable pub make_jar : Bool → Outcome Refused Bool
  unfolding jar_error
  make_jar wanted = if wanted then jar_error calls.new_jar else ok false

  -- The error of Set is never one, so SetMap ends without one.
  unfoldable pub new_test_suite : String → Outcome Refused (Suite M)
  unfolding read_manifest check_replace_host check_addr make_jar returned_as set_map
  new_test_suite replace = do
    preload ← read_manifest ""
    h ← check_replace_host replace
    a ← check_addr preload.http_addr
    m ← read_manifest replace
    jar ← make_jar m.cookie_jar
    server ← returned_as server_url (calls.parse_url url)
    ok (record {
      manifest = m;
      name = m.name <> (" (" <> (path <> ")"));
      has_jar = jar;
      http_server_host = replace;
      server_url = server;
      datastore = set_map host ds m.store;
    })

  -- A suite that is made is the one of the manifest as it is read with the replacement host, has
  -- that host, and starts with the manifest's store; the manifest could be read without the host as
  -- well.
  pub new_test_suite-read_manifest :
      (replace : String) (suite : Suite M)
      → new_test_suite replace ≡ ok suite
      → (preload : Manifest M) × (read_manifest "" ≡ ok preload)
        × (read_manifest replace ≡ ok suite.manifest)
        × (suite.http_server_host ≡ replace)
        × (suite.datastore ≡ set_map host ds suite.manifest.store)
  unfolding new_test_suite
  new_test_suite-read_manifest replace suite h =
      let (preload, first, h₁) = bind_inversion (read_manifest "") _ h in
      let (p, checked, h₂) = bind_inversion (check_replace_host replace) _ h₁ in
      let (a, addr, h₃) = bind_inversion (check_addr preload.http_addr) _ h₂ in
      let (m, second, h₄) = bind_inversion (read_manifest replace) _ h₃ in
      let (jar, made, h₅) = bind_inversion (make_jar m.cookie_jar) _ h₄ in
      let (server, parsed, h₆) =
        bind_inversion (returned_as server_url (calls.parse_url url)) _ h₅ in
      let same = ok-injective h₆ in
      (
        preload,
        first,
        second ∙ ap (λ (s : Suite M). ok s.manifest) same,
        sym (ap (λ (s : Suite M). s.http_server_host) same),
        sym (ap (λ (s : Suite M). s.datastore) same)
            ∙ ap (λ (s : Suite M). set_map host ds s.manifest.store) same,
      )

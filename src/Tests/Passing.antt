-- ===== src/Tests/Passing.antt =====
-- A case whose one answer has the document of the expected response.
use apitest.Base.{refl, false, String, none, some, [], ◌∷◌, ok, err, has_suffix}
use apitest.Base.Int.{pos}
use apitest.Base.Dict.{lookup}
use apitest.Json.{Value, nil, str, of_fields, fields}
use apitest.Datastore.{new_store}
use apitest.Api.Response.{Response}
use apitest.Compare.Equal.{present, object_case}
use apitest.Compare.Objects.{object_comparison}
use apitest.Compare.Checks.{key_checks}
use apitest.Case.{Case}
use apitest.Case.Run.{run_case}
use apitest.Case.Loading.{Source, Loaders, zero_format, responses_equal}
use apitest.Case.Instance.{as_string, source_of, Met, poll_of}
use apitest.Case.Instance.Documents.{HasEqualDocuments, run_case-HasEqualDocuments}
use apitest.Tests.Hosts.{whole_host}
use apitest.Tests.Responding.{formats}

abbrev loaders : Loaders String String String
loaders = record {
  load_object = λ v. ok v;
  marshal = λ v. ok "null";
  request_of =
      λ s. ok (record { server_url = ""; headers = []; header_from_store = []; others = s });
  response_of = λ s. err "no response";
}

abbrev source : Source
source = record {
  request_data = str "GET";
  response_data = nil;
  server_url = "";
  standard_header = [];
  standard_header_from_store = [];
  stores_response = false;
}

abbrev gjson : String → String → Value
gjson s path = nil

abbrev empty_response : Response String String
empty_response = record {
  status_code = some (pos 200);
  headers = [];
  header_flat = [];
  cookies = [];
  body = "";
  body_control = none;
  format = zero_format;
}

abbrev met : Met String String String
met = record {
  loaders = loaders;
  send = λ q. ok empty_response;
  print = λ v. ok "{}";
  elapsed = 5000000;
}

abbrev once : Case
once = record {
  name = "once";
  request_data = some (str "GET");
  response_data = nil;
  store = [];
  store_response = [];
  timeout = pos 10;
  break_response = [];
  collect_response = nil;
  reverse_test_result = false;
  continue_on_failure = false;
  log_network = none;
}

run_case-HasEqualDocuments_example :
    HasEqualDocuments whole_host loaders formats
      (λ e. "error")
      (source_of source once (str "GET"))
      gjson
      (met ∷ [])
unfolding run_case as_string responses_equal present object_case object_comparison of_fields
    has_suffix lookup key_checks fields poll_of source_of
run_case-HasEqualDocuments_example =
    run_case-HasEqualDocuments whole_host loaders formats (λ e. "error") source gjson once
      (str "GET") (met ∷ []) new_store refl refl refl

-- ===== src/Tests/Casing.antt =====
-- One test case, run with a server whose answers are texts that are compared as texts.
use apitest.Base.{◌≡◌, refl, sym, subst, true, false, some, none, [], ◌∷◌, ok, err, String, str_eq}
use apitest.Base.Int.{pos}
use apitest.Json.{nil, str}
use apitest.Datastore.{Datastore, new_store, set_map}
use apitest.Case.{Case, Api, Attempt, sending_request, execution_error, request_text, response_text}
use apitest.Case.Run.{finished, run_case, timed_out, break_present}
use apitest.Case.Once.{AppendsAtMostOne, run_case-AppendsAtMostOne}
use apitest.Case.Reverse.{with_reverse, Opposite, run_case-Opposite}
use apitest.Case.Success.{IsPassed, Matched, Matched-of_IsPassed}
use apitest.Case.Polling.{Answered, IsWaiting, IsMatch, run_case_until}
use apitest.Tests.Hosts.{whole_host}

abbrev text_api : Api
text_api = record {
  Expected = String;
  Response = String;
  Format = Unit {0};
  load_expected = λ v. ok "done";
  load_object = λ v. ok v;
  expected_format = λ e. tt;
  set_expected_format = λ f e. e;
  response_format = λ r. tt;
  set_response_format = λ f r. r;
  has_type = λ f. false;
  has_pre_process = λ f. false;
  responses_equal = λ e r. ok (record { equal = str_eq e r; failures = [] });
  can_marshal = λ v. true;
  gjson = λ s path. nil;
}

-- Up to ten milliseconds.
abbrev patient : Case
patient = record {
  name = "wait";
  request_data = some (str "GET");
  response_data = str "done";
  store = [];
  store_response = [];
  timeout = pos 10;
  break_response = [];
  collect_response = nil;
  reverse_test_result = false;
  continue_on_failure = false;
  log_network = none;
}

abbrev answer : String → Attempt text_api
answer s = record {
  request = ok tt;
  expected = ok "done";
  sent = ok s;
  json = s;
  json_error = none;
  elapsed = 5000000;
}

abbrev refused : Attempt text_api
refused = record {
  request = ok tt;
  expected = ok "done";
  sent = err "connection refused";
  json = "";
  json_error = none;
  elapsed = 5000000;
}

refused-logged :
    run_case whole_host text_api
      (record patient { log_network = some false })
      (refused ∷ [])
      new_store
    ≡ finished false
        (request_text ∷ response_text ∷ execution_error (sending_request "connection refused") ∷ [])
        new_store
unfolding run_case set_map
refused-logged = refl

answered :
    (s : String)
    → Answered whole_host text_api patient
        (answer s)
        (record { equal = str_eq "done" s; failures = [] })
        s
answered s = record {
  expected = "done";
  response = s;
  requests = refl;
  loads = refl;
  answers = refl;
  formats = refl;
  converts = refl;
  compares = refl;
}

busy_IsWaiting : IsWaiting whole_host text_api patient (answer "busy")
unfolding timed_out break_present
busy_IsWaiting = record {
  result = record { equal = false; failures = [] };
  response = "busy";
  answered = answered "busy";
  differs = refl;
  no_break = refl;
  in_time = refl;
}

done_IsMatch : IsMatch whole_host text_api patient (answer "done")
done_IsMatch = record {
  result = record { equal = true; failures = [] };
  response = "done";
  answered = answered "done";
  matches = refl;
}

run_case_until_example :
    (ds : Datastore) × (run_case whole_host text_api patient
        (answer "busy" ∷ answer "done" ∷ [])
        new_store
      ≡ finished true [] ds)
    × (ds.responses ≡ "done" ∷ [])
run_case_until_example =
    run_case_until whole_host text_api patient (str "GET") (answer "busy" ∷ []) (answer "done") []
      new_store refl refl refl (busy_IsWaiting, tt) done_IsMatch

run_case-AppendsAtMostOne_example :
    AppendsAtMostOne whole_host text_api []
      (run_case whole_host text_api patient (answer "busy" ∷ refused ∷ []) new_store)
run_case-AppendsAtMostOne_example =
    run_case-AppendsAtMostOne whole_host text_api patient (answer "busy" ∷ refused ∷ []) new_store

run_case-Opposite_example :
    Opposite
      (run_case whole_host text_api
        (with_reverse false patient)
        (answer "busy" ∷ refused ∷ [])
        new_store)
      (run_case whole_host text_api
        (with_reverse true patient)
        (answer "busy" ∷ refused ∷ [])
        new_store)
run_case-Opposite_example =
    run_case-Opposite whole_host text_api patient (answer "busy" ∷ refused ∷ []) new_store refl

patient-IsPassed :
    IsPassed whole_host text_api
      (run_case whole_host text_api patient (answer "busy" ∷ answer "done" ∷ []) new_store)
patient-IsPassed =
    let (ds, ends, appended) =
      run_case_until whole_host text_api patient (str "GET") (answer "busy" ∷ []) (answer "done") []
        new_store refl refl refl (busy_IsWaiting, tt) done_IsMatch in
    subst (IsPassed whole_host text_api) (sym ends) refl

Matched-of_IsPassed_example : Matched whole_host text_api (answer "busy" ∷ answer "done" ∷ [])
Matched-of_IsPassed_example =
    Matched-of_IsPassed whole_host text_api patient (str "GET") (answer "busy" ∷ answer "done" ∷ [])
      new_store refl refl patient-IsPassed

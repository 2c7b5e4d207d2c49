-- ===== src/Case/Run.antt =====
-- executeRequest, breakResponseIsPresent, checkCollectResponse, run and runAPITestCase.
use apitest.Base.{
  ℕ, zero, suc, Bool, true, false, not, ◌&&◌, ◌||◌, String, Option, none, some, List, [], ◌∷◌, ◌++◌,
  Outcome, ok, err, ◌>>=◌, length, is_empty, map, ◌==◌, if◌then◌else◌,
}
use apitest.Base.Int.{ℤ, pos, negsuc, ltb_ℤ, scale, bits_64, int_64}
use apitest.Json.{Value, nil, array, object, items, of_items}
use apitest.Host.{Host}
use apitest.Compare.Types.{CompareResult, Failure}
use apitest.Datastore.{Datastore, set_map, set_with_gjson, append_response, update_last_response}
use apitest.Case.{
  Case, RunError, LogEntry, Api, Attempt, loading_request, loading_response, sending_request,
  json_of_response, matching_responses, checking_break, checking_collect, break_found, marshalling,
  timeout_exceeded, failure, reverse_failure, collect_missing, execution_error, request_text,
  response_text,
}

-- A failed step, with its error wrapped.
abbrev pub wrapped : {A : Type 0} → (String → RunError) → Outcome String A → Outcome RunError A
wrapped wrap (ok a) = ok a
wrapped wrap (err e) = err (wrap e)

abbrev pub is_nil : Value → Bool
is_nil nil = true
is_nil _ = false

-- What a failed or an ended step leaves: the outcome, and the store. `none` is a panic.
abbrev pub Stored : Type 0 → Type 0
Stored A = Option (Outcome RunError A × Datastore)

-- How the loop ends: with a result and the flag of the timeout, or with an error.
pub record Ended : Type 0 where
  pub result : CompareResult
  pub timed_out_flag : Bool
  pub collect : Value

-- The end of one round: the loop is left, or goes on with the new CollectResponse.
pub data Round : Type 0 where
  leave : Ended → Round
  again : Value → Round

-- What a run leaves. `pending`: no attempt is left and the loop goes on; `panic`: an index fault.
pub data Loop : Type 0 where
  ended : Ended → Datastore → Loop
  failed : RunError → Datastore → Loop
  pending : Datastore → Loop
  panic : Loop

-- How a test case ends: with its success and its log, or as the loop does.
pub data Verdict : Type 0 where
  finished : Bool → List LogEntry → Datastore → Verdict
  waiting : Datastore → Verdict
  crashed : Verdict

-- What `run` returns, and what it adds to the report.
abbrev pub Reported : Type 0
Reported = Outcome RunError Bool × List LogEntry

module _ (host : Host) (api : Api) where
  -- The first poll appends its response, every other replaces it.
  unfoldable pub record_response : ℕ → String → Datastore → Option Datastore
  record_response zero s ds = some (append_response ds s)
  record_response (suc n) s ds = update_last_response ds s

  unfoldable pub after_record :
      Outcome RunError CompareResult
      → api.Response
      → Option Datastore
      → Stored (CompareResult × api.Response)
  after_record m r none = none
  after_record m r (some ds) = some ((do c ← m; ok (c, r)), ds)

  unfoldable pub json_failure : Case → Option String → Option String
  json_failure c none = none
  json_failure c (some e) =
      if not (is_nil c.response_data) || not (is_empty c.store_response) then some e else none

  -- From the response on; `apiResp.Format = expRes.Format` comes first.
  unfoldable pub after_send :
      Case
      → ℕ
      → Attempt api
      → api.Expected
      → api.Response
      → Datastore
      → Option String
      → Stored (CompareResult × api.Response)
  unfolding record_response after_record
  after_send c counter a e r ds (some x) = some (err (json_of_response x), ds)
  after_send c counter a e r ds none =
      let ds' = set_with_gjson host api.gjson ds a.json c.store_response in
      after_record (wrapped matching_responses (api.responses_equal e r)) r
        (record_response counter a.json ds')

  unfoldable pub send :
      Case
      → ℕ
      → Attempt api
      → Datastore
      → Outcome String (Unit {0})
      → Outcome String api.Expected
      → Outcome String api.Response
      → Stored (CompareResult × api.Response)
  unfolding after_send json_failure
  send c counter a ds (err x) e r = some (err (loading_request x), ds)
  send c counter a ds (ok _) (err x) r = some (err (loading_response x), ds)
  send c counter a ds (ok _) (ok e) (err x) = some (err (sending_request x), ds)
  send c counter a ds (ok _) (ok e) (ok r) =
      let r' = api.set_response_format (api.expected_format e) r in
      after_send c counter a e r' ds (json_failure c a.json_error)

  unfoldable pub execute_request :
      Case → ℕ → Attempt api → Datastore → Stored (CompareResult × api.Response)
  unfolding send
  execute_request c counter a ds =
      send c counter a (set_map host ds c.store) a.request a.expected a.sent

  -- The format that the expected response sets, or the one that it takes over.
  unfoldable pub share_format : Bool → api.Expected → api.Response → api.Expected × api.Response
  share_format true e r = (e, api.set_response_format (api.expected_format e) r)
  share_format false e r = (api.set_expected_format (api.response_format r) e, r)

  unfoldable pub match_spec :
      (api.Format → Bool) → Value → api.Response → Outcome String (CompareResult × api.Response)
  unfolding share_format
  match_spec sets v r = do
    e ← api.load_expected v
    let (e', r') = share_format (sets (api.expected_format e)) e r
    m ← api.responses_equal e' r'
    ok (m, r')

  -- The response keeps the format of one round for the next.
  unfoldable pub break_present : List Value → api.Response → Outcome String Bool
  unfolding match_spec
  break_present [] r = ok false
  break_present (v ∷ vs) r = do
    (m, r') ← match_spec api.has_type v r
    elim m.equal [ true ↦ ok true | false ↦ break_present vs r' ]

  -- The responses that are not found, or those that are found if the result is reversed.
  unfoldable pub collect_left : Bool → List Value → api.Response → Outcome String (List Value)
  unfolding match_spec
  collect_left reverse [] r = ok []
  collect_left reverse (v ∷ vs) r = do
    (m, r') ← match_spec (λ f. api.has_type f || api.has_pre_process f) v r
    rest ← collect_left reverse vs r'
    ok (if not m.equal && not reverse || m.equal && reverse then v ∷ rest else rest)

  unfoldable pub collect_items : Value → Outcome String (List Value)
  collect_items (array xs) = ok (items xs)
  collect_items (object fs) = ok (object fs ∷ [])
  collect_items _ = err "loading check response: no valid type"

  -- The number of responses left, and the new CollectResponse.
  unfoldable pub check_collect : Bool → Value → api.Response → Outcome String (ℕ × Value)
  unfolding collect_left collect_items
  check_collect reverse nil r = ok (0, nil)
  check_collect reverse v r = do
    loaded ← api.load_object v
    vs ← collect_items loaded
    left ← collect_left reverse vs r
    ok (length left, array (of_items left))

  -- `time.Since(startTime) > time.Duration(testCase.Timeout) * time.Millisecond`: the product is an
  -- int64 that wraps.
  unfoldable pub timed_out : ℤ → ℕ → Bool
  timed_out timeout elapsed = ltb_ℤ (int_64 (bits_64 (scale timeout 1000000))) (pos elapsed)

  abbrev pub is_forever : ℤ → Bool
  is_forever (negsuc n) = n == 0
  is_forever (pos n) = false

  unfoldable pub check_timeout : ℤ → ℕ → CompareResult → Value → Round
  unfolding timed_out
  check_timeout timeout elapsed m collect =
      if timed_out timeout elapsed && not (is_forever timeout)
      then leave (record { result = m; timed_out_flag = ltb_ℤ (pos 0) timeout; collect = collect })
      else again collect

  unfoldable pub after_collect : ℤ → Bool → ℕ → CompareResult → ℕ × Value → Round
  unfolding check_timeout
  after_collect timeout collect_present elapsed m (left, collect) =
      if collect_present && left == 0
      then leave (record { result = m; timed_out_flag = false; collect = collect })
      else check_timeout timeout elapsed m collect

  unfoldable pub after_break :
      ℤ → Bool → ℕ → CompareResult → Outcome RunError (ℕ × Value) → Bool → Outcome RunError Round
  unfolding after_collect
  after_break timeout collect_present elapsed m checked true = err break_found
  after_break timeout collect_present elapsed m checked false = do
    counted ← checked
    ok (after_collect timeout collect_present elapsed m counted)

  -- From the comparison of a poll to the end of its round.
  unfoldable pub end_round :
      Case → Bool → Value → ℕ → CompareResult × api.Response → Outcome RunError Round
  unfolding after_break break_present check_collect
  end_round c collect_present collect elapsed (m, r) =
      if m.equal && not collect_present
      then ok (leave (record { result = m; timed_out_flag = false; collect = collect }))
      else (do
        present ← wrapped checking_break (break_present c.break_response r)
        after_break c.timeout collect_present elapsed m
            (wrapped checking_collect (check_collect c.reverse_test_result collect r)) present)

  unfoldable pub step_round : Stored Round → (Value → Datastore → Loop) → Loop
  step_round none next = panic
  step_round (some (err e, ds)) next = failed e ds
  step_round (some (ok (leave end'), ds)) next = ended end' ds
  step_round (some (ok (again collect), ds)) next = next collect ds

  unfoldable pub close_round :
      Case → Bool → Value → ℕ → Stored (CompareResult × api.Response) → Stored Round
  unfolding end_round
  close_round c collect_present collect elapsed none = none
  close_round c collect_present collect elapsed (some (m, ds)) =
      some ((do mr ← m; end_round c collect_present collect elapsed mr), ds)

  -- The loop of `run`: one attempt for each round.
  unfoldable pub poll : Case → Bool → ℕ → Value → List (Attempt api) → Datastore → Loop
  unfolding execute_request close_round step_round
  poll c collect_present counter collect [] ds = pending ds
  poll c collect_present counter collect (a ∷ rest) ds =
      step_round (close_round c collect_present collect a.elapsed (execute_request c counter a ds))
        (λ left ds'. poll c collect_present (suc counter) left rest ds')

  -- The failures as the report has them.
  unfoldable pub failure_log : Bool → List Failure → List LogEntry
  failure_log reverse fs = map (if reverse then reverse_failure else failure) fs

  -- The collect responses that are left, each with its own entry: an error ends the report.
  unfoldable pub collect_log : List Value → Outcome RunError Bool × List LogEntry
  collect_log [] = (ok false, [])
  collect_log (v ∷ vs) =
      let (res, log) = collect_log vs in
      if api.can_marshal v then (res, collect_missing v ∷ log) else (err marshalling, [])

  unfoldable pub left_responses : Value → List Value
  left_responses (array xs) = items xs
  left_responses _ = []

  unfoldable pub timeout_log : Case → Bool → List LogEntry
  timeout_log c true = timeout_exceeded c.timeout ∷ []
  timeout_log c false = []

  -- The conditions of logBody.
  unfoldable pub logs_network : Case → Bool
  logs_network c = not (
      c.reverse_test_result
      || c.continue_on_failure
      || elim c.log_network [ none ↦ true | some b ↦ b ])

  unfoldable pub network_log : Case → List LogEntry → List LogEntry
  unfolding logs_network
  network_log c entries = if logs_network c then entries else []

  -- logReq and logResp before an error is returned: every one but the first comes with a request.
  unfoldable pub logged_by : RunError → List LogEntry
  logged_by (loading_request e) = response_text ∷ []
  logged_by _ = request_text ∷ response_text ∷ []

  -- logReq and logResp where no error is returned; those of an error are in `judge`.
  unfoldable pub closing_log : Case → Outcome RunError Bool → List LogEntry
  unfolding network_log
  closing_log c (ok b) = network_log c (request_text ∷ response_text ∷ [])
  closing_log c (err e) = []

  unfoldable pub failed_log : Case → Ended → Reported
  unfolding collect_log left_responses failure_log closing_log
  failed_log c e =
      let (res, log) = collect_log (left_responses e.collect) in
      (res, failure_log c.reverse_test_result e.result.failures ++ (log ++ closing_log c res))

  unfoldable pub close_run : Case → Ended → Reported
  unfolding failed_log timeout_log
  close_run c e =
      let (res, log) = failed_log c e in
      if not e.result.equal || e.timed_out_flag
      then (res, timeout_log c e.timed_out_flag ++ log)
      else (ok true, [])

  unfoldable pub reversed : Case → Bool → Bool
  reversed c success = if c.reverse_test_result then not success else success

  -- An error is an entry of the report and no success, before the result is reversed.
  unfoldable pub judge : Case → Reported → Datastore → Verdict
  unfolding reversed network_log logged_by
  judge c (ok success, log) ds = finished (reversed c success) log ds
  judge c (err e, log) ds =
      finished (reversed c false) (log ++ (network_log c (logged_by e) ++ execution_error e ∷ []))
        ds

  unfoldable pub run_ended : Case → Loop → Verdict
  unfolding judge close_run
  run_ended c (ended e ds) = judge c (close_run c e) ds
  run_ended c (failed e ds) = judge c (err e, []) ds
  run_ended c (pending ds) = waiting ds
  run_ended c panic = crashed

  -- `run`, up to what its caller makes of the result.
  unfoldable pub run : Case → List (Attempt api) → Datastore → Loop
  unfolding poll
  run c attempts ds = poll c (not (is_nil c.collect_response)) 0 c.collect_response attempts ds

  -- A case without a request only sets its store.
  unfoldable pub run_request : Case → Option Value → List (Attempt api) → Datastore → Verdict
  unfolding run run_ended
  run_request c none attempts ds = judge c (ok true, []) ds
  run_request c (some _) attempts ds = run_ended c (run c attempts ds)

  unfoldable pub run_case : Case → List (Attempt api) → Datastore → Verdict
  unfolding run_request
  run_case c attempts ds = run_request c c.request_data attempts (set_map host ds c.store)

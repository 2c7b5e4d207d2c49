-- ===== src/Case/Polling.antt =====
-- The polls of a case that waits for one response: they go on until an answer is as expected.
use apitest.Base.{
  ℕ, suc, true, false, not, ◌&&◌, String, none, some, List, [], ◌∷◌, ◌++◌, ok, ◌≡◌, refl, ◌∙◌, sym,
  ap,
}
use apitest.Json.{Value, nil}
use apitest.Host.{Host}
use apitest.Datastore.{Datastore, set_map, set_with_gjson}
use apitest.Compare.Types.{CompareResult}
use apitest.Case.{Case, Api, Attempt}
use apitest.Case.Once.{
  Ready, Ready-same, set_map_responses, set_with_gjson_responses, record_response-Ready,
}
use apitest.Case.Run.{
  json_failure, after_record, after_send, send, execute_request, end_round, after_break,
  after_collect, check_timeout, check_collect, timed_out, is_forever, break_present, close_round,
  step_round, poll, run, judge, reversed, close_run, run_ended, run_request, run_case, ended, leave,
  again, finished,
}

module _ (host : Host) (api : Api) (c : Case) where
  -- The poll was answered, with nothing that ends the run with an error.
  pub record Answered (a : Attempt api) (m : CompareResult) (r : api.Response) : Type 0 where
    pub expected : api.Expected
    pub response : api.Response
    pub requests : a.request ≡ ok tt
    pub loads : a.expected ≡ ok expected
    pub answers : a.sent ≡ ok response
    pub formats : r ≡ api.set_response_format (api.expected_format expected) response
    pub converts : a.json_error ≡ none
    pub compares : api.responses_equal expected r ≡ ok m

  execute_request-Answered :
      (counter : ℕ) (a : Attempt api) (m : CompareResult) (r : api.Response) (ds : Datastore)
      (rs : List String)
      → Answered a m r
      → Ready host api counter rs ds
      → (ds' : Datastore) × (execute_request host api c counter a ds ≡ some (ok (m, r), ds'))
        × (ds'.responses ≡ rs ++ a.json ∷ [])
  unfolding execute_request send after_send json_failure after_record Ready
  execute_request-Answered counter a m r ds rs h ready =
      let ds1 = set_map host ds c.store in
      let ds2 = set_with_gjson host api.gjson ds1 a.json c.store_response in
      let ready1 =
        Ready-same host api counter ds ds1 rs (set_map_responses host api c.store ds) ready in
      let ready2 =
        Ready-same host api counter ds1 ds2 rs
          (set_with_gjson_responses host api c.store_response a.json ds1) ready1 in
      let (ds3, recorded, appended) = record_response-Ready host api counter a.json ds2 rs ready2 in
      (
        ds3,
        rw (
          h.requests,
          h.loads,
          h.answers,
          h.converts,
          json_failure,
          sym h.formats,
          h.compares,
          recorded,
        ),
        appended,
      )

  -- The answer is another than the expected, and no break response, and there is time left.
  pub record IsWaiting (a : Attempt api) : Type 0 where
    pub result : CompareResult
    pub response : api.Response
    pub answered : Answered a result response
    pub differs : result.equal ≡ false
    pub no_break : break_present host api c.break_response response ≡ ok false
    pub in_time :
        (timed_out host api c.timeout a.elapsed && not (is_forever host api c.timeout)) ≡ false

  pub record IsMatch (a : Attempt api) : Type 0 where
    pub result : CompareResult
    pub response : api.Response
    pub answered : Answered a result response
    pub matches : result.equal ≡ true

  abbrev pub AllWaiting : List (Attempt api) → Type 0
  AllWaiting [] = Unit {0}
  AllWaiting (a ∷ xs) = IsWaiting a × AllWaiting xs

  end_round_waiting :
      (a : Attempt api) (w : IsWaiting a)
      → end_round host api c false nil a.elapsed (w.result, w.response) ≡ ok (again nil)
  unfolding end_round after_break after_collect check_timeout check_collect
  end_round_waiting a w = rw (w.differs, w.no_break, w.in_time)

  end_round_matched :
      (a : Attempt api) (w : IsMatch a)
      → end_round host api c false nil a.elapsed (w.result, w.response)
        ≡ ok (leave (record { result = w.result; timed_out_flag = false; collect = nil }))
  unfolding end_round
  end_round_matched a w = rw (w.matches)

  poll_waiting :
      (counter : ℕ) (a : Attempt api) (rest : List (Attempt api)) (ds : Datastore)
      (rs : List String)
      → IsWaiting a
      → Ready host api counter rs ds
      → (ds' : Datastore) × (poll host api c false counter nil (a ∷ rest) ds
          ≡ poll host api c false (suc counter) nil rest ds')
        × Ready host api (suc counter) rs ds'
  unfolding poll close_round step_round Ready
  poll_waiting counter a rest ds rs w ready =
      let (ds', sent, ready') =
        execute_request-Answered counter a w.result w.response ds rs w.answered ready in
      (ds', rw (sent, end_round_waiting a w), (a.json, ready'))

  poll_matched :
      (counter : ℕ) (a : Attempt api) (rest : List (Attempt api)) (ds : Datastore)
      (rs : List String)
      → (w : IsMatch a) → Ready host api counter rs ds
      → (ds' : Datastore) × (poll host api c false counter nil (a ∷ rest) ds
          ≡ ended (record { result = w.result; timed_out_flag = false; collect = nil }) ds')
        × (ds'.responses ≡ rs ++ a.json ∷ [])
  unfolding poll close_round step_round
  poll_matched counter a rest ds rs w ready =
      let (ds', sent, ready') =
        execute_request-Answered counter a w.result w.response ds rs w.answered ready in
      (ds', rw (sent, end_round_matched a w), ready')

  poll_until :
      (xs : List (Attempt api)) (counter : ℕ) (a : Attempt api) (rest : List (Attempt api))
      (ds : Datastore) (rs : List String)
      → AllWaiting xs
      → (w : IsMatch a) → Ready host api counter rs ds
      → (ds' : Datastore) × (poll host api c false counter nil (xs ++ a ∷ rest) ds
          ≡ ended (record { result = w.result; timed_out_flag = false; collect = nil }) ds')
        × (ds'.responses ≡ rs ++ a.json ∷ [])
  poll_until [] counter a rest ds rs h w ready = poll_matched counter a rest ds rs w ready
  poll_until (x ∷ xs) counter a rest ds rs (wx, h) w ready =
      let (ds1, step, ready1) = poll_waiting counter x (xs ++ a ∷ rest) ds rs wx ready in
      let (ds', ends, appended) = poll_until xs (suc counter) a rest ds1 rs h w ready1 in
      (ds', step ∙ ends, appended)

  run_until :
      (xs : List (Attempt api)) (a : Attempt api) (rest : List (Attempt api)) (ds : Datastore)
      → c.collect_response ≡ nil
      → AllWaiting xs
      → (w : IsMatch a)
      → (ds' : Datastore) × (run host api c (xs ++ a ∷ rest) ds
          ≡ ended (record { result = w.result; timed_out_flag = false; collect = nil }) ds')
        × (ds'.responses ≡ ds.responses ++ a.json ∷ [])
  unfolding run Ready
  run_until xs a rest ds collects h w =
      let (ds', ends, appended) = poll_until xs 0 a rest ds ds.responses h w refl in
      (ds', rw (collects, ends), appended)

  -- A test case that has a request, collects nothing and is not reversed goes on while its polls are
  -- answered without an error and the answers differ from what is expected, are no break responses,
  -- and come in time; at the first answer that compares equal it succeeds, with nothing in its log
  -- and that answer, alone of all the polls', added to the responses. What would come after is not
  -- asked for.
  pub run_case_until :
      (request : Value) (xs : List (Attempt api)) (a : Attempt api) (rest : List (Attempt api))
      (ds : Datastore)
      → c.request_data ≡ some request
      → c.collect_response ≡ nil
      → c.reverse_test_result ≡ false
      → AllWaiting xs
      → IsMatch a
      → (ds' : Datastore) × (run_case host api c (xs ++ a ∷ rest) ds ≡ finished true [] ds')
        × (ds'.responses ≡ ds.responses ++ a.json ∷ [])
  unfolding run_case run_request run_ended close_run judge reversed
  run_case_until request xs a rest ds requests collects reverses h w =
      let (ds', ends, appended) = run_until xs a rest (set_map host ds c.store) collects h w in
      (
        ds',
        rw (requests, ends, w.matches, reverses),
        appended ∙ ap (λ r. r ++ a.json ∷ []) (set_map_responses host api c.store ds),
      )

-- ===== src/Case/Success.antt =====
-- What a success says of the polls.
use apitest.Base.{
  ℕ, suc, Bool, true, false, not, ◌&&◌, ◌||◌, String, Option, none, some, List, [], ◌∷◌, ◌++◌,
  Outcome, ok, err, ◌≡◌, refl, sym, subst, ◌==◌, ◌>>=◌, if◌then◌else◌,
}
use apitest.Base.Int.{ℤ, pos, ltb_ℤ}
use apitest.Json.{Value}
use apitest.Host.{Host}
use apitest.Datastore.{Datastore, set_map, set_with_gjson}
use apitest.Compare.Types.{CompareResult}
use apitest.Case.{
  Case, Api, Attempt, RunError, LogEntry, matching_responses, checking_break, checking_collect,
  collect_missing, marshalling,
}
use apitest.Case.Run.{
  wrapped, Stored, Loop, Round, Ended, Verdict, Reported, json_failure, record_response,
  after_record, after_send, send, execute_request, timed_out, is_forever, break_present,
  check_collect, end_round, after_break, after_collect, check_timeout, close_round, step_round,
  poll, run, judge, reversed, close_run, is_nil, failed_log, closing_log, timeout_log, failure_log,
  collect_log, left_responses, run_ended, run_request, run_case, ended, failed, pending, panic,
  leave, again, finished,
}

module _ (host : Host) (api : Api) where
  -- The poll was answered, and this is the comparison with what was expected.
  pub record Compared (a : Attempt api) (m : CompareResult) : Type 0 where
    pub expected : api.Expected
    pub response : api.Response
    pub loads : a.expected ≡ ok expected
    pub answers : a.sent ≡ ok response
    pub compares :
        api.responses_equal expected
          (api.set_response_format (api.expected_format expected) response)
        ≡ ok m

  abbrev Comparing : Attempt api → Stored (CompareResult × api.Response) → Type 0
  Comparing a none = Unit {0}
  Comparing a (some (ok (m, r), ds)) = Compared a m
  Comparing a (some (err e, ds)) = Unit {0}

  after_record-Comparing :
      (a : Attempt api) (e : api.Expected) (r : api.Response) (o : Option Datastore)
      (m : Outcome String CompareResult)
      → a.expected ≡ ok e
      → a.sent ≡ ok r
      → api.responses_equal e (api.set_response_format (api.expected_format e) r) ≡ m
      → Comparing a (
          after_record host api
            (wrapped matching_responses m)
            (api.set_response_format (api.expected_format e) r)
            o)
  unfolding after_record
  after_record-Comparing a e r none m l s h = tt
  after_record-Comparing a e r (some ds) (err x) l s h = tt
  after_record-Comparing a e r (some ds) (ok m) l s h = record {
    expected = e;
    response = r;
    loads = l;
    answers = s;
    compares = h;
  }

  after_send-Comparing :
      (c : Case) (counter : ℕ) (a : Attempt api) (e : api.Expected) (r : api.Response)
      (ds : Datastore) (x : Option String)
      → a.expected ≡ ok e
      → a.sent ≡ ok r
      → Comparing a (
          after_send host api c counter a e
            (api.set_response_format (api.expected_format e) r)
            ds
            x)
  unfolding after_send
  after_send-Comparing c counter a e r ds (some x) l s = tt
  after_send-Comparing c counter a e r ds none l s =
      after_record-Comparing a e r
        (record_response host api counter a.json
          (set_with_gjson host api.gjson ds a.json c.store_response))
        (api.responses_equal e (api.set_response_format (api.expected_format e) r)) l s refl

  send-Comparing :
      (c : Case) (counter : ℕ) (a : Attempt api) (ds : Datastore) (x : Outcome String (Unit {0}))
      (e : Outcome String api.Expected) (r : Outcome String api.Response)
      → a.expected ≡ e
      → a.sent ≡ r
      → Comparing a (send host api c counter a ds x e r)
  unfolding send
  send-Comparing c counter a ds (err x) e r l s = tt
  send-Comparing c counter a ds (ok _) (err x) r l s = tt
  send-Comparing c counter a ds (ok _) (ok e) (err x) l s = tt
  send-Comparing c counter a ds (ok _) (ok e) (ok r) l s =
      after_send-Comparing c counter a e r ds (json_failure host api c a.json_error) l s

  abbrev EndsWith : CompareResult → Round → Type 0
  EndsWith m (leave e) = e.result ≡ m
  EndsWith m (again v) = Unit {0}

  abbrev RoundEnds : CompareResult → Outcome RunError Round → Type 0
  RoundEnds m (ok r) = EndsWith m r
  RoundEnds m (err x) = Unit {0}

  execute_request-Comparing :
      (c : Case) (counter : ℕ) (a : Attempt api) (ds : Datastore)
      → Comparing a (execute_request host api c counter a ds)
  unfolding execute_request
  execute_request-Comparing c counter a ds =
      send-Comparing c counter a (set_map host ds c.store) a.request a.expected a.sent refl refl

  if_ends :
      (m : CompareResult) (b : Bool) (x y : Round)
      → EndsWith m x
      → EndsWith m y
      → EndsWith m (if b then x else y)
  if_ends m true x y h k = h
  if_ends m false x y h k = k

  if_RoundEnds :
      (m : CompareResult) (b : Bool) (e : Ended) (y : Outcome RunError Round)
      → e.result ≡ m
      → RoundEnds m y
      → RoundEnds m (if b then ok (leave e) else y)
  if_RoundEnds m true e y h k = h
  if_RoundEnds m false e y h k = k

  check_timeout_ends :
      (timeout : ℤ) (n : ℕ) (m : CompareResult) (v : Value)
      → EndsWith m (check_timeout host api timeout n m v)
  unfolding check_timeout
  check_timeout_ends timeout n m v =
      if_ends m (timed_out host api timeout n && not (is_forever host api timeout))
        (leave (record { result = m; timed_out_flag = ltb_ℤ (pos 0) timeout; collect = v }))
        (again v) refl tt

  after_collect_ends :
      (timeout : ℤ) (p : Bool) (n : ℕ) (m : CompareResult) (counted : ℕ × Value)
      → EndsWith m (after_collect host api timeout p n m counted)
  unfolding after_collect
  after_collect_ends timeout p n m (left, v) =
      if_ends m (p && left == 0)
        (leave (record { result = m; timed_out_flag = false; collect = v }))
        (check_timeout host api timeout n m v) refl (check_timeout_ends timeout n m v)

  after_break_ends :
      (timeout : ℤ) (p : Bool) (n : ℕ) (m : CompareResult) (checked : Outcome RunError (ℕ × Value))
      (present : Outcome RunError Bool)
      → RoundEnds m (do b ← present; after_break host api timeout p n m checked b)
  unfolding after_break
  after_break_ends timeout p n m checked (err x) = tt
  after_break_ends timeout p n m checked (ok true) = tt
  after_break_ends timeout p n m (err x) (ok false) = tt
  after_break_ends timeout p n m (ok counted) (ok false) = after_collect_ends timeout p n m counted

  end_round_ends :
      (c : Case) (p : Bool) (v : Value) (n : ℕ) (m : CompareResult) (r : api.Response)
      → RoundEnds m (end_round host api c p v n (m, r))
  unfolding end_round
  end_round_ends c p v n m r =
      let checked = wrapped checking_collect (check_collect host api c.reverse_test_result v r) in
      let present = wrapped checking_break (break_present host api c.break_response r) in
      if_RoundEnds m (m.equal && not p) (record { result = m; timed_out_flag = false; collect = v })
        (do b ← present; after_break host api c.timeout p n m checked b) refl
        (after_break_ends c.timeout p n m checked present)

  abbrev StoredEnds : Attempt api → Stored Round → Type 0
  StoredEnds a (some (ok (leave e), ds)) = Compared a e.result
  StoredEnds a _ = Unit {0}

  round_ends :
      (a : Attempt api) (m : CompareResult) (round : Outcome RunError Round) (ds : Datastore)
      → Compared a m
      → RoundEnds m round
      → StoredEnds a (some (round, ds))
  round_ends a m (err x) ds h e = tt
  round_ends a m (ok (again v)) ds h e = tt
  round_ends a m (ok (leave end')) ds h e = subst (Compared a) (sym e) h

  close_round_ends :
      (c : Case) (p : Bool) (v : Value) (a : Attempt api)
      (sent : Stored (CompareResult × api.Response))
      → Comparing a sent
      → StoredEnds a (close_round host api c p v a.elapsed sent)
  unfolding close_round
  close_round_ends c p v a none h = tt
  close_round_ends c p v a (some (err e, ds)) h = tt
  close_round_ends c p v a (some (ok (m, r), ds)) h =
      round_ends a m (end_round host api c p v a.elapsed (m, r)) ds h
        (end_round_ends c p v a.elapsed m r)

  -- One of the polls was answered as expected.
  pub data Matched : List (Attempt api) → Type 0 where
    now :
        {a : Attempt api} {rest : List (Attempt api)} {m : CompareResult}
        → Compared a m
        → m.equal ≡ true
        → Matched (a ∷ rest)
    later : {a : Attempt api} {rest : List (Attempt api)} → Matched rest → Matched (a ∷ rest)

  abbrev LoopMatched : List (Attempt api) → Loop → Type 0
  LoopMatched attempts (ended e ds) = e.result.equal ≡ true → Matched attempts
  LoopMatched attempts _ = Unit {0}

  widen :
      (a : Attempt api) (rest : List (Attempt api)) (l : Loop)
      → LoopMatched rest l
      → LoopMatched (a ∷ rest) l
  widen a rest (ended e ds) h = λ equal. later (h equal)
  widen a rest (failed e ds) h = tt
  widen a rest (pending ds) h = tt
  widen a rest panic h = tt

  step_round_matched :
      (a : Attempt api) (rest : List (Attempt api)) (round : Stored Round)
      (next : Value → Datastore → Loop)
      → StoredEnds a round
      → ((v : Value) (ds : Datastore) → LoopMatched rest (next v ds))
      → LoopMatched (a ∷ rest) (step_round host api round next)
  unfolding step_round
  step_round_matched a rest none next h k = tt
  step_round_matched a rest (some (err e, ds)) next h k = tt
  step_round_matched a rest (some (ok (leave e), ds)) next h k = λ equal. now h equal
  step_round_matched a rest (some (ok (again v), ds)) next h k = widen a rest (next v ds) (k v ds)

  poll_matched :
      (c : Case) (p : Bool) (counter : ℕ) (v : Value) (attempts : List (Attempt api))
      (ds : Datastore)
      → LoopMatched attempts (poll host api c p counter v attempts ds)
  unfolding poll
  poll_matched c p counter v [] ds = tt
  poll_matched c p counter v (a ∷ rest) ds =
      step_round_matched a rest
        (close_round host api c p v a.elapsed (execute_request host api c counter a ds))
        (λ left ds'. poll host api c p (suc counter) left rest ds')
        (close_round_ends c p v a (execute_request host api c counter a ds)
          (execute_request-Comparing c counter a ds))
        (λ left ds'. poll_matched c p (suc counter) left rest ds')

  -- The case is done, and it succeeded.
  abbrev pub IsPassed : Verdict → Type 0
  IsPassed (finished b log ds) = b ≡ true
  IsPassed _ = ⊥

  abbrev NotPassed : Outcome RunError Bool → Type 0
  NotPassed (ok b) = b ≡ false
  NotPassed (err e) = Unit {0}

  abbrev LogFails : Reported → Type 0
  LogFails rep = NotPassed rep.0

  collect_fails :
      (b : Bool) (v : Value) (rep : Reported)
      → LogFails rep
      → LogFails (if b then (rep.0, collect_missing v ∷ rep.1) else (err marshalling, []))
  collect_fails true v rep h = h
  collect_fails false v rep h = tt

  collect_log_fails : (vs : List Value) → LogFails (collect_log host api vs)
  unfolding collect_log
  collect_log_fails [] = refl
  collect_log_fails (v ∷ vs) =
      collect_fails (api.can_marshal v) v (collect_log host api vs) (collect_log_fails vs)

  true-false : (b : Bool) → b ≡ false → b ≡ true → ⊥
  true-false b n h = cc

  judge_fails :
      (c : Case) (res : Outcome RunError Bool) (log : List LogEntry) (ds : Datastore)
      → c.reverse_test_result ≡ false
      → NotPassed res
      → IsPassed (judge host api c (res, log) ds)
      → ⊥
  unfolding judge reversed
  judge_fails c (ok b) log ds h n passed =
      true-false b n (subst (λ r. (if r then not b else b) ≡ true) h passed)
  judge_fails c (err e) log ds h n passed =
      true-false false refl (subst (λ r. (if r then true else false) ≡ true) h passed)

  picked_passes :
      (c : Case) (equal flag : Bool) (res : Outcome RunError Bool) (log : List LogEntry)
      (ds : Datastore)
      → c.reverse_test_result ≡ false
      → NotPassed res
      → IsPassed (judge host api c (if not equal || flag then (res, log) else (ok true, [])) ds)
      → equal ≡ true
  picked_passes c true flag res log ds h n passed = refl
  picked_passes c false flag res log ds h n passed = absurd (judge_fails c res log ds h n passed)

  run_ended_passes :
      (c : Case) (attempts : List (Attempt api)) (l : Loop)
      → c.reverse_test_result ≡ false
      → LoopMatched attempts l
      → IsPassed (run_ended host api c l)
      → Matched attempts
  unfolding run_ended close_run failed_log
  run_ended_passes c attempts (ended e ds) h m passed =
      let (res, log) = collect_log host api (left_responses host api e.collect) in
      m (
        picked_passes c e.result.equal e.timed_out_flag res
          (timeout_log host api c e.timed_out_flag
            ++ (failure_log host api c.reverse_test_result e.result.failures
                ++ (log ++ closing_log host api c res)))
          ds h (collect_log_fails (left_responses host api e.collect)) passed)
  run_ended_passes c attempts (failed e ds) h m passed =
      absurd (judge_fails c (err e) [] ds h tt passed)
  run_ended_passes c attempts (pending ds) h m passed = absurd passed
  run_ended_passes c attempts panic h m passed = absurd passed

  -- A test case with a request, whose result is not reversed, succeeds only if the server's answer
  -- to one of its polls compared equal to the expected response.
  pub Matched-of_IsPassed :
      (c : Case) (request : Value) (attempts : List (Attempt api)) (ds : Datastore)
      → c.request_data ≡ some request
      → c.reverse_test_result ≡ false
      → IsPassed (run_case host api c attempts ds)
      → Matched attempts
  unfolding run_case run_request run
  Matched-of_IsPassed c request attempts ds e h passed =
      let ds' = set_map host ds c.store in
      run_ended_passes c attempts (run host api c attempts ds') h
        (poll_matched c (not (is_nil c.collect_response)) 0 c.collect_response attempts ds')
        (subst (λ o. IsPassed (run_request host api c o attempts ds')) e passed)

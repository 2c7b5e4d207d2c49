-- ===== src/Case/Reverse.antt =====
-- reverse_test_result: the same polls with the opposite verdict.
use apitest.Base.{
  ℕ, suc, Bool, true, false, not, ◌&&◌, ◌||◌, ◌++◌, String, Option, none, some, List, [], ◌∷◌,
  Outcome, ok, err, ◌≡◌, refl, ◌∙◌, sym, ap, subst, ◌>>=◌, if◌then◌else◌,
}
use apitest.Base.Int.{ℤ, pos, ltb_ℤ}
use apitest.Json.{Value, nil}
use apitest.Host.{Host}
use apitest.Datastore.{Datastore, set_map}
use apitest.Compare.Types.{CompareResult}
use apitest.Case.{Case, Api, Attempt, RunError, LogEntry, checking_break}
use apitest.Case.Run.{
  wrapped, is_nil, Stored, Loop, Round, Ended, Verdict, json_failure, after_send, send,
  execute_request, end_round, after_break, after_collect, check_timeout, check_collect,
  break_present, close_round, step_round, poll, run, judge, reversed, close_run, failed_log,
  closing_log, timeout_log, failure_log, collect_log, left_responses, run_ended, run_request,
  run_case, ended, failed, pending, panic, timed_out, is_forever, leave, again, finished, waiting,
  crashed,
}

abbrev pub with_reverse : Bool → Case → Case
with_reverse b c = record c { reverse_test_result = b }

-- The same end with the same store, and the opposite verdict.
abbrev pub Opposite : Verdict → Verdict → Type 0
Opposite (finished b _ ds) (finished b' _ ds') = (b' ≡ not b) × (ds' ≡ ds)
Opposite (waiting ds) (waiting ds') = ds' ≡ ds
Opposite crashed crashed = Unit {0}
Opposite _ _ = ⊥

abbrev RoundNil : Round → Type 0
RoundNil (leave e) = Unit {0}
RoundNil (again v) = v ≡ nil

abbrev NilAgain : Outcome RunError Round → Type 0
NilAgain (ok r) = RoundNil r
NilAgain (err e) = Unit {0}

abbrev StoredNil : Stored Round → Type 0
StoredNil none = Unit {0}
StoredNil (some (r, ds)) = NilAgain r

module _ (host : Host) (api : Api) where
  json_failure_same :
      (b : Bool) (c : Case) (x : Option String)
      → json_failure host api (with_reverse b c) x ≡ json_failure host api c x
  unfolding json_failure
  json_failure_same b c none = refl
  json_failure_same b c (some e) = refl

  after_send_same :
      (b : Bool) (c : Case) (counter : ℕ) (a : Attempt api) (e : api.Expected) (r : api.Response)
      (ds : Datastore) (x : Option String)
      → after_send host api (with_reverse b c) counter a e r ds x
        ≡ after_send host api c counter a e r ds x
  unfolding after_send
  after_send_same b c counter a e r ds none = refl
  after_send_same b c counter a e r ds (some x) = refl

  send_same :
      (b : Bool) (c : Case) (counter : ℕ) (a : Attempt api) (ds : Datastore)
      (x : Outcome String (Unit {0})) (e : Outcome String api.Expected)
      (r : Outcome String api.Response)
      → send host api (with_reverse b c) counter a ds x e r ≡ send host api c counter a ds x e r
  unfolding send
  send_same b c counter a ds (err x) e r = refl
  send_same b c counter a ds (ok _) (err x) r = refl
  send_same b c counter a ds (ok _) (ok e) (err x) = refl
  send_same b c counter a ds (ok _) (ok e) (ok r) =
      let r' = api.set_response_format (api.expected_format e) r in
      after_send_same b c counter a e r' ds (json_failure host api (with_reverse b c) a.json_error)
      ∙ ap (after_send host api c counter a e r' ds) (json_failure_same b c a.json_error)

  execute_request_same :
      (b : Bool) (c : Case) (counter : ℕ) (a : Attempt api) (ds : Datastore)
      → execute_request host api (with_reverse b c) counter a ds
        ≡ execute_request host api c counter a ds
  unfolding execute_request
  execute_request_same b c counter a ds =
      send_same b c counter a (set_map host ds c.store) a.request a.expected a.sent

  end_round_same :
      (b : Bool) (c : Case) (n : ℕ) (mr : CompareResult × api.Response)
      → end_round host api (with_reverse b c) false nil n mr ≡ end_round host api c false nil n mr
  unfolding end_round check_collect
  end_round_same b c n (m, r) = refl

  close_round_same :
      (b : Bool) (c : Case) (n : ℕ) (sent : Stored (CompareResult × api.Response))
      → close_round host api (with_reverse b c) false nil n sent
        ≡ close_round host api c false nil n sent
  unfolding close_round
  close_round_same b c n none = refl
  close_round_same b c n (some (err e, ds)) = refl
  close_round_same b c n (some (ok mr, ds)) = ap (λ r. some (r, ds)) (end_round_same b c n mr)

  if_nil : (b : Bool) (e : Ended) → RoundNil (if b then leave e else again nil)
  if_nil true e = tt
  if_nil false e = refl

  if_again :
      (b : Bool) (e : Ended) (m : Outcome RunError Round)
      → NilAgain m
      → NilAgain (if b then ok (leave e) else m)
  if_again true e m h = tt
  if_again false e m h = h

  -- A run that collects nothing never begins to.
  after_break_nil :
      (timeout : ℤ) (n : ℕ) (m : CompareResult) (present : Outcome RunError Bool)
      → NilAgain (do p ← present; after_break host api timeout false n m (ok (0, nil)) p)
  unfolding after_break after_collect check_timeout
  after_break_nil timeout n m (err e) = tt
  after_break_nil timeout n m (ok true) = tt
  after_break_nil timeout n m (ok false) =
      if_nil (timed_out host api timeout n && not (is_forever host api timeout))
        (record { result = m; timed_out_flag = ltb_ℤ (pos 0) timeout; collect = nil })

  end_round_nil :
      (c : Case) (n : ℕ) (mr : CompareResult × api.Response)
      → NilAgain (end_round host api c false nil n mr)
  unfolding end_round check_collect
  end_round_nil c n (m, r) =
      if_again (m.equal && not false) (record { result = m; timed_out_flag = false; collect = nil })
        (do
          p ← wrapped checking_break (break_present host api c.break_response r)
          after_break host api c.timeout false n m (ok (0, nil)) p)
        (after_break_nil c.timeout n m
          (wrapped checking_break (break_present host api c.break_response r)))

  close_round_nil :
      (c : Case) (n : ℕ) (sent : Stored (CompareResult × api.Response))
      → StoredNil (close_round host api c false nil n sent)
  unfolding close_round
  close_round_nil c n none = tt
  close_round_nil c n (some (err e, ds)) = tt
  close_round_nil c n (some (ok mr, ds)) = end_round_nil c n mr

  step_round_same :
      (round : Stored Round) (next next' : Value → Datastore → Loop)
      → StoredNil round
      → ((ds : Datastore) → next nil ds ≡ next' nil ds)
      → step_round host api round next ≡ step_round host api round next'
  unfolding step_round
  step_round_same none next next' h same = refl
  step_round_same (some (err e, ds)) next next' h same = refl
  step_round_same (some (ok (leave e), ds)) next next' h same = refl
  step_round_same (some (ok (again v), ds)) next next' h same =
      ap (λ v. next v ds) h ∙ same ds ∙ sym (ap (λ v. next' v ds) h)

  poll_same :
      (b : Bool) (c : Case) (counter : ℕ) (attempts : List (Attempt api)) (ds : Datastore)
      → poll host api (with_reverse b c) false counter nil attempts ds
        ≡ poll host api c false counter nil attempts ds
  unfolding poll
  poll_same b c counter [] ds = refl
  poll_same b c counter (a ∷ rest) ds =
      let sent = execute_request host api c counter a ds in
      let next = λ (c : Case) (left : Value) (ds' : Datastore).
        poll host api c false (suc counter) left rest ds' in
      ap (λ r. step_round host api r (next (with_reverse b c)))
        (ap (close_round host api (with_reverse b c) false nil a.elapsed)
            (execute_request_same b c counter a ds)
          ∙ close_round_same b c a.elapsed sent)
      ∙ step_round_same (close_round host api c false nil a.elapsed sent) (next (with_reverse b c))
          (next c) (close_round_nil c a.elapsed sent) (λ ds'. poll_same b c (suc counter) rest ds')

  run_same :
      (b : Bool) (c : Case) (attempts : List (Attempt api)) (ds : Datastore)
      → c.collect_response ≡ nil
      → run host api (with_reverse b c) attempts ds ≡ run host api c attempts ds
  unfolding run
  run_same b c attempts ds h =
      ap (λ v. poll host api (with_reverse b c) (not (is_nil v)) 0 v attempts ds) h
      ∙ poll_same b c 0 attempts ds
      ∙ sym (ap (λ v. poll host api c (not (is_nil v)) 0 v attempts ds) h)

  judge-Opposite :
      (c : Case) (res : Outcome RunError Bool) (log log' : List LogEntry) (ds : Datastore)
      → Opposite
          (judge host api (with_reverse false c) (res, log) ds)
          (judge host api (with_reverse true c) (res, log') ds)
  unfolding judge reversed
  judge-Opposite c (ok b) log log' ds = (refl, refl)
  judge-Opposite c (err e) log log' ds = (refl, refl)

  picked-Opposite :
      (c : Case) (b : Bool) (res : Outcome RunError Bool) (log log' : List LogEntry)
      (ds : Datastore)
      → Opposite
          (judge host api (with_reverse false c) (if b then (res, log) else (ok true, [])) ds)
          (judge host api (with_reverse true c) (if b then (res, log') else (ok true, [])) ds)
  picked-Opposite c true res log log' ds = judge-Opposite c res log log' ds
  picked-Opposite c false res log log' ds = judge-Opposite c (ok true) [] [] ds

  ended-Opposite :
      (c : Case) (e : Ended) (ds : Datastore)
      → Opposite
          (judge host api (with_reverse false c) (close_run host api (with_reverse false c) e) ds)
          (judge host api (with_reverse true c) (close_run host api (with_reverse true c) e) ds)
  unfolding close_run failed_log timeout_log
  ended-Opposite c e ds =
      let (res, log) = collect_log host api (left_responses host api e.collect) in
      let logged = λ (b : Bool).
        timeout_log host api c e.timed_out_flag
        ++ (failure_log host api b e.result.failures
            ++ (log ++ closing_log host api (with_reverse b c) res)) in
      picked-Opposite c (not e.result.equal || e.timed_out_flag) res (logged false) (logged true) ds

  run_ended-Opposite :
      (c : Case) (l : Loop)
      → Opposite
          (run_ended host api (with_reverse false c) l)
          (run_ended host api (with_reverse true c) l)
  unfolding run_ended
  run_ended-Opposite c (ended e ds) = ended-Opposite c e ds
  run_ended-Opposite c (failed e ds) = judge-Opposite c (err e) [] [] ds
  run_ended-Opposite c (pending ds) = refl
  run_ended-Opposite c panic = tt

  run_request-Opposite :
      (c : Case) (request : Option Value) (attempts : List (Attempt api)) (ds : Datastore)
      → c.collect_response ≡ nil
      → Opposite
          (run_request host api (with_reverse false c) request attempts ds)
          (run_request host api (with_reverse true c) request attempts ds)
  unfolding run_request
  run_request-Opposite c none attempts ds h = judge-Opposite c (ok true) [] [] ds
  run_request-Opposite c (some v) attempts ds h =
      subst
        (λ l. Opposite (run_ended host api (with_reverse false c) l) (
          run_ended host api (with_reverse true c)
            (run host api (with_reverse true c) attempts ds)))
        (sym (run_same false c attempts ds h))
        (subst
          (λ l.
            Opposite (run_ended host api (with_reverse false c) (run host api c attempts ds))
              (run_ended host api (with_reverse true c) l))
          (sym (run_same true c attempts ds h)) (run_ended-Opposite c (run host api c attempts ds)))

  -- reverse_test_result, in a case that collects no responses, changes neither the polls nor the
  -- store that they leave, and turns the verdict round: an execution error, a failed comparison and
  -- a timeout count as a success.
  pub run_case-Opposite :
      (c : Case) (attempts : List (Attempt api)) (ds : Datastore)
      → c.collect_response ≡ nil
      → Opposite
          (run_case host api (with_reverse false c) attempts ds)
          (run_case host api (with_reverse true c) attempts ds)
  unfolding run_case
  run_case-Opposite c attempts ds h =
      run_request-Opposite c c.request_data attempts (set_map host ds c.store) h

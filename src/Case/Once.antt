-- ===== src/Case/Once.antt =====
-- How many responses a run adds to the store.
use apitest.Base.{
  ℕ, zero, suc, Bool, not, true, false, String, Option, none, some, List, [], ◌∷◌, ◌++◌, Outcome,
  ok, err, ◌≡◌, refl, ◌∙◌, ap, ◌⊎◌, inl, inr,
}
use apitest.Base.Dict.{Dict}
use apitest.Json.{Value, nil}
use apitest.Host.{Host}
use apitest.Datastore.{
  Datastore, set, set_map, set_with_gjson, store_found, bang, append_response, update_last_response,
}
use apitest.Datastore.Responses.{set_last-append}
use apitest.Compare.Types.{CompareResult}
use apitest.Case.{Case, matching_responses, Api, Attempt, RunError}
use apitest.Case.Run.{
  wrapped, Stored, Loop, Round, Verdict, record_response, after_record, after_send, send,
  json_failure, execute_request, close_round, step_round, poll, run, judge, close_run, Reported,
  run_ended, run_request, run_case, is_nil, end_round, ended, failed, pending, panic, leave, again,
  finished, waiting, crashed,
}

-- `rs` with at most one response behind it.
abbrev pub AtMostOne : List String → List String → Type 0
AtMostOne rs qs = (qs ≡ rs) ⊎ ((s : String) × (qs ≡ rs ++ s ∷ []))

module _ (host : Host) (api : Api) where
  pub set_map_responses :
      (m : Dict Value) (ds : Datastore) → (set_map host ds m).responses ≡ ds.responses
  unfolding set_map set
  set_map_responses [] ds = refl
  set_map_responses ((k, v) ∷ m) ds = set_map_responses m (set host ds k v)

  store_found_responses :
      (ds : Datastore) (k : String) (b : Bool) (v : Value)
      → (store_found host api.gjson ds k b v).responses ≡ ds.responses
  unfolding store_found set
  store_found_responses ds k true nil = refl
  store_found_responses ds k false nil = refl
  store_found_responses ds k b _ = refl

  pub set_with_gjson_responses :
      (m : Dict String) (s : String) (ds : Datastore)
      → (set_with_gjson host api.gjson ds s m).responses ≡ ds.responses
  unfolding set_with_gjson
  set_with_gjson_responses [] s ds = refl
  set_with_gjson_responses ((k, qv) ∷ m) s ds =
      let (b, path) = bang host api.gjson qv in
      set_with_gjson_responses m s (store_found host api.gjson ds k b (api.gjson s path))
      ∙ store_found_responses ds k b (api.gjson s path)

  -- The store in which the poll `counter` starts.
  unfoldable pub Ready : ℕ → List String → Datastore → Type 0
  Ready zero rs ds = ds.responses ≡ rs
  Ready (suc n) rs ds = (s : String) × (ds.responses ≡ rs ++ s ∷ [])

  abbrev Appended : {A : Type 0} → List String → Stored A → Type 0
  Appended rs none = ⊥
  Appended rs (some (ok _, ds)) = (s : String) × (ds.responses ≡ rs ++ s ∷ [])
  Appended rs (some (err _, ds)) = AtMostOne rs ds.responses

  pub record_response-Ready :
      (counter : ℕ) (s : String) (ds : Datastore) (rs : List String)
      → Ready counter rs ds
      → (ds' : Datastore) × (record_response host api counter s ds ≡ some ds')
        × (ds'.responses ≡ rs ++ s ∷ [])
  unfolding record_response append_response update_last_response Ready
  record_response-Ready zero s ds rs h = (append_response ds s, refl, ap (λ r. r ++ s ∷ []) h)
  record_response-Ready (suc n) s ds rs (t, h) = (
    record ds { responses = rs ++ s ∷ [] },
    rw (update_last_response, h, set_last-append rs t s),
    refl,
  )

  after_record-Appended :
      (m : Outcome RunError CompareResult) (r : api.Response) (o : Option Datastore)
      (ds : Datastore) (rs : List String) (s : String)
      → o ≡ some ds
      → ds.responses ≡ rs ++ s ∷ []
      → Appended rs (after_record host api m r o)
  unfolding after_record
  after_record-Appended (ok m) r none ds rs s e h = cc
  after_record-Appended (err x) r none ds rs s e h = cc
  after_record-Appended (ok m) r (some ds') ds rs s e h = (s, cc)
  after_record-Appended (err x) r (some ds') ds rs s e h = inr (s, cc)

  Ready-AtMostOne :
      (counter : ℕ) (ds : Datastore) (rs : List String)
      → Ready counter rs ds
      → AtMostOne rs ds.responses
  unfolding Ready
  Ready-AtMostOne zero ds rs h = inl h
  Ready-AtMostOne (suc n) ds rs h = inr h

  pub Ready-same :
      (counter : ℕ) (ds ds' : Datastore) (rs : List String)
      → ds'.responses ≡ ds.responses
      → Ready counter rs ds
      → Ready counter rs ds'
  unfolding Ready
  Ready-same zero ds ds' rs e h = e ∙ h
  Ready-same (suc n) ds ds' rs e (s, h) = (s, e ∙ h)

  after_send-Appended :
      (c : Case) (counter : ℕ) (a : Attempt api) (ds : Datastore) (rs : List String)
      (e : api.Expected) (r : api.Response) (x : Option String)
      → Ready counter rs ds
      → Appended rs (after_send host api c counter a e r ds x)
  unfolding after_send
  after_send-Appended c counter a ds rs e r (some x) h = Ready-AtMostOne counter ds rs h
  after_send-Appended c counter a ds rs e r none h =
      let ds' = set_with_gjson host api.gjson ds a.json c.store_response in
      let ready =
        Ready-same counter ds ds' rs (set_with_gjson_responses c.store_response a.json ds) h in
      let (ds'', recorded, appended) = record_response-Ready counter a.json ds' rs ready in
      after_record-Appended (wrapped matching_responses (api.responses_equal e r)) r
        (record_response host api counter a.json ds') ds'' rs a.json recorded appended

  -- A poll appends one response, or ends with an error.
  send-Appended :
      (c : Case) (counter : ℕ) (a : Attempt api) (ds : Datastore) (rs : List String)
      (x : Outcome String (Unit {0})) (e : Outcome String api.Expected)
      (r : Outcome String api.Response)
      → Ready counter rs ds
      → Appended rs (send host api c counter a ds x e r)
  unfolding send after_send json_failure
  send-Appended c counter a ds rs (err x) e r h = Ready-AtMostOne counter ds rs h
  send-Appended c counter a ds rs (ok _) (err x) r h = Ready-AtMostOne counter ds rs h
  send-Appended c counter a ds rs (ok _) (ok e) (err x) h = Ready-AtMostOne counter ds rs h
  send-Appended c counter a ds rs (ok _) (ok e) (ok r) h =
      after_send-Appended c counter a ds rs e (api.set_response_format (api.expected_format e) r)
        (json_failure host api c a.json_error) h

  execute_request-Appended :
      (c : Case) (counter : ℕ) (a : Attempt api) (ds : Datastore) (rs : List String)
      → Ready counter rs ds
      → Appended rs (execute_request host api c counter a ds)
  unfolding execute_request
  execute_request-Appended c counter a ds rs h =
      send-Appended c counter a (set_map host ds c.store) rs a.request a.expected a.sent
        (Ready-same counter ds (set_map host ds c.store) rs (set_map_responses c.store ds) h)

  abbrev LoopKeeps : List String → Loop → Type 0
  LoopKeeps rs (ended e ds) = AtMostOne rs ds.responses
  LoopKeeps rs (failed e ds) = AtMostOne rs ds.responses
  LoopKeeps rs (pending ds) = AtMostOne rs ds.responses
  LoopKeeps rs panic = ⊥

  round-Appended :
      (rs : List String) (m : Outcome RunError Round) (ds : Datastore)
      → ((s : String) × (ds.responses ≡ rs ++ s ∷ []))
      → Appended rs (some (m, ds))
  round-Appended rs (ok r) ds h = h
  round-Appended rs (err e) ds h = inr h

  close_round-Appended :
      (c : Case) (p : Bool) (collect : Value) (n : ℕ) (rs : List String)
      (sent : Stored (CompareResult × api.Response))
      → Appended rs sent
      → Appended rs (close_round host api c p collect n sent)
  unfolding close_round
  close_round-Appended c p collect n rs none h = elim h [ ]
  close_round-Appended c p collect n rs (some (err e, ds)) h = h
  close_round-Appended c p collect n rs (some (ok mr, ds)) h =
      round-Appended rs (end_round host api c p collect n mr) ds h

  step_round_keeps :
      (rs : List String) (round : Stored (Round)) (next : Value → Datastore → Loop)
      → Appended rs round
      → ((v : Value) (ds : Datastore) (s : String)
          → ds.responses ≡ rs ++ s ∷ []
          → LoopKeeps rs (next v ds))
      → LoopKeeps rs (step_round host api round next)
  unfolding step_round
  step_round_keeps rs none next h k = elim h [ ]
  step_round_keeps rs (some (err e, ds)) next h k = h
  step_round_keeps rs (some (ok (leave e), ds)) next h k = inr h
  step_round_keeps rs (some (ok (again v), ds)) next (s, h) k = k v ds s h

  poll_keeps :
      (c : Case) (p : Bool) (counter : ℕ) (collect : Value) (attempts : List (Attempt api))
      (ds : Datastore) (rs : List String)
      → Ready counter rs ds
      → LoopKeeps rs (poll host api c p counter collect attempts ds)
  unfolding poll Ready
  poll_keeps c p counter collect [] ds rs h = Ready-AtMostOne counter ds rs h
  poll_keeps c p counter collect (a ∷ rest) ds rs h =
      step_round_keeps rs
        (close_round host api c p collect a.elapsed (execute_request host api c counter a ds))
        (λ left ds'. poll host api c p (suc counter) left rest ds')
        (close_round-Appended c p collect a.elapsed rs (execute_request host api c counter a ds)
          (execute_request-Appended c counter a ds rs h))
        (λ v ds' s e. poll_keeps c p (suc counter) v rest ds' rs (s, e))

  -- The verdict is no crash, and leaves at most one response behind `rs`.
  abbrev pub AppendsAtMostOne : List String → Verdict → Type 0
  AppendsAtMostOne rs (finished b log ds) = AtMostOne rs ds.responses
  AppendsAtMostOne rs (waiting ds) = AtMostOne rs ds.responses
  AppendsAtMostOne rs crashed = ⊥

  judge_keeps :
      (c : Case) (rep : Reported) (ds : Datastore) (rs : List String)
      → AtMostOne rs ds.responses
      → AppendsAtMostOne rs (judge host api c rep ds)
  unfolding judge
  judge_keeps c (ok b, log) ds rs h = h
  judge_keeps c (err e, log) ds rs h = h

  run_ended_keeps :
      (c : Case) (l : Loop) (rs : List String)
      → LoopKeeps rs l
      → AppendsAtMostOne rs (run_ended host api c l)
  unfolding run_ended
  run_ended_keeps c (ended e ds) rs h = judge_keeps c (close_run host api c e) ds rs h
  run_ended_keeps c (failed e ds) rs h = judge_keeps c (err e, []) ds rs h
  run_ended_keeps c (pending ds) rs h = h
  run_ended_keeps c panic rs h = elim h [ ]

  run_request_keeps :
      (c : Case) (request : Option Value) (attempts : List (Attempt api)) (ds : Datastore)
      (rs : List String)
      → ds.responses ≡ rs
      → AppendsAtMostOne rs (run_request host api c request attempts ds)
  unfolding run_request run Ready
  run_request_keeps c none attempts ds rs h = judge_keeps c (ok true, []) ds rs (inl h)
  run_request_keeps c (some v) attempts ds rs h =
      run_ended_keeps c (run host api c attempts ds) rs
        (poll_keeps c (not (is_nil c.collect_response)) 0 c.collect_response attempts ds rs h)

  -- A test case never crashes on the list of responses, and however often it repeats its request it
  -- adds at most one response to the list.
  pub run_case-AppendsAtMostOne :
      (c : Case) (attempts : List (Attempt api)) (ds : Datastore)
      → AppendsAtMostOne ds.responses (run_case host api c attempts ds)
  unfolding run_case
  run_case-AppendsAtMostOne c attempts ds =
      run_request_keeps c c.request_data attempts (set_map host ds c.store) ds.responses
        (set_map_responses c.store ds)

-- ===== src/Case.antt =====
-- api_testcase.go: one test case, from its request to its verdict. What a poll meets outside the
-- program is an `Attempt`, and a run goes through a list of them. Sleeping and console messages are
-- left out.
pub mod Run
pub mod Once
pub mod Reverse
pub mod Success
pub mod Polling
pub mod Loading
pub mod Instance
use apitest.Base.{Bool, String, List, ℕ, Option, Outcome}
use apitest.Base.Dict.{Dict}
use apitest.Base.Int.{ℤ}
use apitest.Json.{Value}
use apitest.Compare.Types.{CompareResult, Failure}

-- The fields of Case that decide what a run does.
pub record Case : Type 0 where
  pub name : String
  pub request_data : Option Value
  -- nil where no response is specified
  pub response_data : Value
  pub store : Dict Value
  pub store_response : Dict String
  -- timeout_ms
  pub timeout : ℤ
  pub break_response : List Value
  -- nil where nothing is collected
  pub collect_response : Value
  pub reverse_test_result : Bool
  pub continue_on_failure : Bool
  -- nil where log_network is not set
  pub log_network : Option Bool

pub data RunError : Type 0 where
  loading_request loading_response sending_request json_of_response : String → RunError
  matching_responses checking_break checking_collect : String → RunError
  break_found : RunError
  marshalling : RunError

-- What SaveToReportLog is called with. The texts of the request and the response are left open.
pub data LogEntry : Type 0 where
  timeout_exceeded : ℤ → LogEntry
  failure : Failure → LogEntry
  reverse_failure : Failure → LogEntry
  collect_missing : Value → LogEntry
  execution_error : RunError → LogEntry
  request_text response_text : LogEntry

-- The parts of package api and of the template loader that a run calls, each a parameter.
pub record Api : Type 1 where
  pub Expected : Type 0
  pub Response : Type 0
  pub Format : Type 0
  -- loadResponseSerialization, then api.NewResponseFromSpec
  pub load_expected : Value → Outcome String Expected
  -- template.LoadManifestDataAsObject
  pub load_object : Value → Outcome String Value
  pub expected_format : Expected → Format
  pub set_expected_format : Format → Expected → Expected
  pub response_format : Response → Format
  pub set_response_format : Format → Response → Response
  -- Format.Type != "", and Format.PreProcess != nil
  pub has_type : Format → Bool
  pub has_pre_process : Format → Bool
  -- responsesEqual
  pub responses_equal : Expected → Response → Outcome String CompareResult
  -- jsutil.Marshal does not fail
  pub can_marshal : Value → Bool
  -- gjson.Get(response, path).Value()
  pub gjson : String → String → Value

-- One poll: what the loads and the server answer, and the time in ns since the start of the run.
pub record Attempt (api : Api) : Type 0 where
  pub request : Outcome String (Unit {0})
  pub expected : Outcome String api.Expected
  pub sent : Outcome String api.Response
  -- ServerResponseToJsonString: the text, and whether there was an error
  pub json : String
  pub json_error : Option String
  pub elapsed : ℕ

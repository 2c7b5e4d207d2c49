-- ===== src/Compare/Types.antt =====
-- The records of comparer.go and comparison_functions.go. A message is a constructor with what the
-- source formats into its text.
use apitest.Base.{ℕ, Bool, true, false, String, Option, none, List, [], ◌∷◌, Outcome}
use apitest.Base.Int.{ℤ, pos}
use apitest.Json.{Value, Float}

-- getJsonType; `no_type` is its default case.
pub data JsonType : Type 0 where
  object_type array_type string_type number_type json_number_type bool_type no_type : JsonType

-- The errors that keyChecks returns.
pub data CheckError : Type 0 where
  is_nil : CheckError
  wrong_type : JsonType → JsonType → CheckError
  not_found : CheckError
  found : CheckError
  wrong_length : ℕ → ℤ → CheckError
  no_number : CheckError
  not_greater_equal not_greater not_less_equal not_less : Value → String → CheckError
  bad_regex : String → CheckError
  no_match : Value → String → CheckError
  does_match : String → CheckError
  no_prefix no_suffix : String → CheckError
  is_null : CheckError
  marshal_failed : CheckError
  is_equal : Value → CheckError

pub data Message : Type 0 where
  response_nil : Message
  no_float : Value → Message
  got_float : Float → Float → Message
  no_json_object no_json_array no_json_string no_json_bool : Message
  no_json_number : Value → Message
  got_string got_number : String → String → Message
  got_bool : Bool → Bool → Message
  invalid_type : Value → Value → Message
  check : CheckError → Message
  extra_in_object extra_in_array : Message
  too_long : ℕ → ℕ → String → String → Message
  not_in_order : Value → Message

pub record Failure : Type 0 where
  pub key : String
  pub message : Message

pub record CompareResult : Type 0 where
  pub equal : Bool
  pub failures : List Failure

-- The errors that end a comparison.
pub data Error : Type 0 where
  no_int64 : String → Error
  no_bool : String → Error
  no_string : String → Error
  empty_text : String → Error
  no_json_number : String → Error
  bad_not_equal : JsonType → Error
  unknown_control : String → Error
  control_not_object : String → Error
  marshal_expected marshal_actual : Error

pub record Context : Type 0 where
  pub depth : ℤ
  pub order_matters : Bool
  pub no_extra : Bool
  pub element_no_extra : Bool
  pub must_exist : Bool
  pub element_count : Option ℤ
  pub is_string : Bool
  pub is_number : Bool
  pub is_array : Bool
  pub must_not_exist : Bool
  pub is_object : Bool
  pub is_bool : Bool
  pub number_gt : Option String
  pub number_ge : Option String
  pub number_lt : Option String
  pub number_le : Option String
  pub regex_match : Option String
  pub regex_match_not : Option String
  pub starts_with : Option String
  pub ends_with : Option String
  pub not_equal_null : Bool
  pub not_equal : Option Value

-- ComparisonContext{}
abbrev pub no_control : Context
no_control = record {
  depth = pos 0;
  order_matters = false;
  no_extra = false;
  element_no_extra = false;
  must_exist = false;
  element_count = none;
  is_string = false;
  is_number = false;
  is_array = false;
  must_not_exist = false;
  is_object = false;
  is_bool = false;
  number_gt = none;
  number_ge = none;
  number_lt = none;
  number_le = none;
  regex_match = none;
  regex_match_not = none;
  starts_with = none;
  ends_with = none;
  not_equal_null = false;
  not_equal = none;
}

-- JsonEqual with its left argument given.
abbrev pub Comparer : Type 0
Comparer = Value → Context → Outcome Error CompareResult

-- A part of the expected document: its value, and how it is compared.
abbrev pub Part : Type 0
Part = Value × Comparer

abbrev pub equal_result : CompareResult
equal_result = record { equal = true; failures = [] }

abbrev pub failed : String → Message → CompareResult
failed k m = record { equal = false; failures = record { key = k; message = m } ∷ [] }

-- ===== src/Host.antt =====
-- What the program takes from elsewhere: IEEE floats and their text, the regexp engine, and the
-- JSON encoder of github.com/programmfabrik/golib. A parameter of every definition that uses it.
use apitest.Base.{Bool, String, Option, List}
use apitest.Base.Int.{ℤ}
use apitest.Json.{Float, Value}

pub record Host : Type 0 where
  -- x == y, x < y and x <= y on float64
  pub float_eq : Float → Float → Bool
  pub float_lt : Float → Float → Bool
  pub float_le : Float → Float → Bool
  -- float64(n)
  pub float_of_int : ℤ → Float
  -- strconv.ParseFloat(s, 64)
  pub parse_float : String → Option Float
  -- strconv.ParseInt(fmt.Sprintf("%.0f", x), 10, 64)
  pub round_float : Float → Option ℤ
  -- math.Mod(x, 1.0) == 0, and int(x)
  pub is_integral : Float → Bool
  pub truncate : Float → ℤ
  -- fmt.Sprint of an int64 and of a float64, and fmt.Sprintf("%v") of any value
  pub int_text : ℤ → String
  pub float_text : Float → String
  pub value_text : Value → String
  -- regexp.Match(pattern, text); none where the pattern does not compile
  pub regex_match : String → String → Option Bool
  -- golib.JsonBytes of an array, golib.JsonBytesIndent of an array
  pub marshal : List Value → Option String
  pub marshal_indent : List Value → Option String

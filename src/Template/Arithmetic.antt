-- ===== src/Template/Arithmetic.antt =====
-- add, subtract, multiply, divide and n. An int64 is an integer, a uint64 a number below 2^64, and
-- the results wrap around. A function takes `b` before `a`, as in the source.
pub mod Integers
pub mod Division
use apitest.Base.{
  ℕ, zero, suc, ◌+◌, ◌-◌, ◌*◌, ◌/◌, ◌%◌, ◌^◌, Bool, ◌&&◌, ◌||◌, not, true, false, String, Option,
  none, some, ltb, ◌==◌, if◌then◌else◌,
}
use apitest.Base.Int.{ℤ, pos, negsuc, pos_part, neg_part, bits_64, int_64, eq_ℤ}
use apitest.Json.{Float}
use apitest.Json.Number.{parse_int}

-- What reflect.Kind tells apart, for the operands that templates have: an integer is an int or an
-- int64. A jsutil.Number is of the kind String.
pub data Operand : Type 0 where
  number : String → Operand
  text : String → Operand
  int : ℤ → Operand
  uint : ℕ → Operand
  float : Float → Operand
  nil : Operand
  other : String → Operand

pub data Result : Type 0 where
  value : Operand → Result
  unknown_type : Result
  -- the error of strconv.Atoi
  no_number : String → Result
  panicked : Result

-- The arithmetic of float64.
pub record Floats : Type 0 where
  pub plus : Float → Float → Float
  pub minus : Float → Float → Float
  pub times : Float → Float → Float
  pub over : Float → Float → Float
  -- float64(n) of an int64 and of a uint64
  pub of_int : ℤ → Float
  pub of_uint : ℕ → Float
  -- strconv.ParseFloat(s, 64), and int(x)
  pub parse : String → Option Float
  pub truncate : Float → ℤ

-- The operators of the three kinds of numbers, and what an operand of no such kind is answered with.
pub record Operator : Type 0 where
  pub ints : ℤ → ℤ → Result
  pub uints : ℕ → ℕ → Result
  pub floats : Float → Float → Float
  -- the answer to a nil on the left
  pub on_nil : Result

unfoldable pub plus_int : ℤ → ℤ → ℤ
plus_int a b = int_64 ((bits_64 a + bits_64 b) % 2 ^ 64)

unfoldable pub minus_int : ℤ → ℤ → ℤ
minus_int a b = int_64 ((bits_64 a + (2 ^ 64 - bits_64 b)) % 2 ^ 64)

unfoldable pub times_int : ℤ → ℤ → ℤ
times_int a b = int_64 ((bits_64 a * bits_64 b) % 2 ^ 64)

abbrev pub magnitude : ℤ → ℕ
magnitude a = pos_part a + neg_part a

-- The integer of that sign and that magnitude.
abbrev pub signed : Bool → ℕ → ℤ
signed negative zero = pos 0
signed false (suc n) = pos (suc n)
signed true (suc n) = negsuc n

abbrev pub is_negative : ℤ → Bool
is_negative (pos n) = false
is_negative (negsuc n) = true

abbrev xor : Bool → Bool → Bool
xor false b = b
xor true b = not b

-- The quotient is rounded towards 0.
unfoldable pub over_int : ℤ → ℤ → ℤ
over_int a b =
    int_64 (bits_64 (signed (xor (is_negative a) (is_negative b)) (magnitude a / magnitude b)))

unfoldable pub divide_int : ℤ → ℤ → Result
unfolding over_int
divide_int a b = if eq_ℤ b (pos 0) then panicked else value (int (over_int a b))

unfoldable pub divide_uint : ℕ → ℕ → Result
divide_uint a b = if b == 0 then panicked else value (uint (a / b))

module _ (fs : Floats) where
  unfoldable pub converted : String → Option ℤ → Option Float → Operand
  converted s (some n) x = int n
  converted s none (some x) = float x
  converted s none none = number s

  unfoldable pub int_or_float_from_json_number : Operand → Operand
  unfolding converted
  int_or_float_from_json_number (number s) = converted s (parse_int s) (fs.parse s)
  int_or_float_from_json_number a = a

  -- The switch on the kind of a, and in each of its cases the switch on the kind of b.
  unfoldable pub combine : Operator → Operand → Operand → Result
  combine op (int a) (int b) = op.ints a b
  combine op (int a) (uint b) = op.ints a (int_64 b)
  combine op (int a) (float b) = value (float (op.floats (fs.of_int a) b))
  combine op (uint a) (int b) = op.ints (int_64 a) b
  combine op (uint a) (uint b) = op.uints a b
  combine op (uint a) (float b) = value (float (op.floats (fs.of_uint a) b))
  combine op (float a) (int b) = value (float (op.floats a (fs.of_int b)))
  combine op (float a) (uint b) = value (float (op.floats a (fs.of_uint b)))
  combine op (float a) (float b) = value (float (op.floats a b))
  combine op nil b = op.on_nil
  combine op a b = unknown_type

  abbrev pub plus : Operator
  plus = record {
    ints = λ a b. value (int (plus_int a b));
    uints = λ a b. value (uint ((a + b) % 2 ^ 64));
    floats = fs.plus;
    on_nil = unknown_type;
  }

  -- The error for a nil asks the zero reflect.Value for its type.
  abbrev pub minus : Operator
  minus = record {
    ints = λ a b. value (int (minus_int a b));
    uints = λ a b. value (uint ((a + (2 ^ 64 - b)) % 2 ^ 64));
    floats = fs.minus;
    on_nil = panicked;
  }

  abbrev pub times : Operator
  times = record {
    ints = λ a b. value (int (times_int a b));
    uints = λ a b. value (uint ((a * b) % 2 ^ 64));
    floats = fs.times;
    on_nil = unknown_type;
  }

  abbrev pub over : Operator
  over = record { ints = divide_int; uints = divide_uint; floats = fs.over; on_nil = unknown_type }

  unfoldable pub add_text : Operand → String → Option ℤ → Result
  unfolding combine plus_int
  add_text a s none = no_number s
  add_text a s (some n) = combine plus a (int n)

  -- The switch on the kind of b comes first.
  unfoldable pub add_converted : Operand → Operand → Result
  unfolding add_text combine plus_int
  add_converted a (text s) = add_text a s (parse_int s)
  add_converted a (number s) = add_text a s (parse_int s)
  add_converted a b = combine plus a b

  unfoldable pub add : Operand → Operand → Result
  unfolding int_or_float_from_json_number add_converted
  add b a = add_converted (int_or_float_from_json_number a) (int_or_float_from_json_number b)

  unfoldable pub subtract : Operand → Operand → Result
  unfolding int_or_float_from_json_number combine minus_int
  subtract b a = combine minus (int_or_float_from_json_number a) (int_or_float_from_json_number b)

  unfoldable pub multiply : Operand → Operand → Result
  unfolding int_or_float_from_json_number combine times_int
  multiply b a = combine times (int_or_float_from_json_number a) (int_or_float_from_json_number b)

  unfoldable pub divide : Operand → Operand → Result
  unfolding int_or_float_from_json_number combine divide_int divide_uint
  divide b a = combine over (int_or_float_from_json_number a) (int_or_float_from_json_number b)

  -- The number of the elements of n; make panics at a negative one.
  unfoldable pub made : ℤ → Result
  made (pos n) = value (uint n)
  made (negsuc n) = panicked

  unfoldable pub made_of_number : String → Option ℤ → Result
  unfolding made
  made_of_number s none = no_number s
  made_of_number s (some n) = made n

  unfoldable pub n : Operand → Result
  unfolding made made_of_number
  n (float x) = made (fs.truncate x)
  n (int i) = made i
  n (number s) = made_of_number s (parse_int s)
  n a = unknown_type

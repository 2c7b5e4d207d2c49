-- ===== src/Tests/Hosts.antt =====
-- A host with whole numbers for floats, literal patterns for regular expressions, and an encoder
-- that never fails.
use apitest.Base.{true, some, leb, ltb, ◌==◌, str_eq}
use apitest.Base.Int.{pos, pos_part}
use apitest.Base.Decimal.{decimal}
use apitest.Json.Number.{magnitude}
use apitest.Host.{Host}

abbrev pub whole_host : Host
whole_host = record {
  float_eq = λ x y. x == y;
  float_lt = ltb;
  float_le = leb;
  float_of_int = pos_part;
  parse_float = magnitude;
  round_float = λ x. some (pos x);
  is_integral = λ x. true;
  truncate = pos;
  int_text = λ n. decimal (pos_part n);
  float_text = decimal;
  value_text = λ v. "value";
  regex_match = λ rx t. some (str_eq rx t);
  marshal = λ xs. some "array";
  marshal_indent = λ xs. some "array";
}

-- ===== src/Api/PreProcess.antt =====
-- pre_process.go: the command that a response goes through, and the body that it leaves. Running the
-- command and the encoders are parameters.
pub mod Json
use apitest.Base.{
  ℕ, Bool, true, false, String, Option, none, some, List, [], ◌∷◌, Outcome, ok, err, ◌>>=◌, str_eq,
  if◌then◌else◌, ◌<>◌,
}
use apitest.Base.Int.{ℤ, pos}
use apitest.Json.{Value, str}
use apitest.Api.Response.{Response}

pub record Command : Type 0 where
  pub name : String
  pub args : List String
  -- stdout, stderr, exitcode, or any other text
  pub output : String

-- What cmd.Run leaves: the error, if there was one, with the exit code and the stderr of an
-- ExitError.
pub record Ran : Type 0 where
  pub stdout : String
  pub stderr : String
  pub failure : Option (String × Option (ℤ × String))
  -- ProcessState.ExitCode()
  pub exit_code : ℤ

pub record Runner : Type 0 where
  pub run : Command → String → Ran
  pub itoa : ℤ → String
  -- golib.JsonBytesIndent of a preProcessError, of the command line, the error, the exit code and
  -- the stderr
  pub error_json : String → String → ℤ → String → Outcome String String
  -- golib.JsonBytes, with no text beside an error, and jsutil.Unmarshal
  pub encode : Value → Outcome String String
  pub unmarshal : String → Outcome String Value

-- strings.Join(args, " "), of the arguments and the command's name before them
unfoldable pub command_line : String → List String → String
command_line name [] = name
command_line name (a ∷ args) = command_line (name <> (" " <> a)) args

unfoldable pub or_stdout : String → String
or_stdout output = if str_eq output "" then "stdout" else output

unfoldable pub exit_code_of : Option (ℤ × String) → ℤ
exit_code_of none = pos 0
exit_code_of (some (code, text)) = code

unfoldable pub stderr_of : String → Option (ℤ × String) → String
stderr_of stderr none = stderr
stderr_of stderr (some (code, text)) = stderr <> text

unfoldable pub empty_command : String
empty_command = "Invalid cmd for pre_process: must not be an empty string"

module _ (runner : Runner) where
  -- The body behind a command that failed; `body` is the one before.
  unfoldable pub failed_body :
      Command → String → Ran → String → Option (ℤ × String) → Outcome String String
  unfolding command_line exit_code_of stderr_of
  failed_body c body ran e exit =
      if str_eq c.output "exitcode"
      then ok (runner.itoa (exit_code_of exit))
      else if str_eq c.output "stderr"
      then ok (stderr_of ran.stderr exit)
      else if str_eq c.output "stdout"
      then runner.error_json (command_line c.name c.args) e (exit_code_of exit)
          (stderr_of ran.stderr exit)
      else ok body

  unfoldable pub output_body : Command → String → Ran → String
  output_body c body ran =
      if str_eq c.output "exitcode"
      then runner.itoa ran.exit_code
      else if str_eq c.output "stderr"
      then ran.stderr
      else if str_eq c.output "stdout"
      then ran.stdout
      else body

  unfoldable pub ran_body :
      Command → String → Ran → Option (String × Option (ℤ × String)) → Outcome String String
  unfolding failed_body output_body
  ran_body c body ran none = ok (output_body c body ran)
  ran_body c body ran (some (e, exit)) = failed_body c body ran e exit

  -- runPreProcess
  unfoldable pub run_pre_process :
      {P C : Type 0} → Command → Response P C → Outcome String (Response P C)
  unfolding ran_body or_stdout empty_command
  run_pre_process c r =
      let c' = record c { output = or_stdout c.output } in
      let ran = runner.run c' r.body in
      if str_eq c.name ""
      then err empty_command
      else (do b ← ran_body c' r.body ran ran.failure; ok (record r { body = b }))

  unfoldable pub or_nothing : Outcome String String → String
  or_nothing (ok s) = s
  or_nothing (err e) = ""

  unfoldable pub fixed : String → Outcome String Value → String
  unfolding or_nothing
  fixed data_of (err e) = or_nothing (runner.encode (str data_of))
  fixed data_of (ok v) = or_nothing (runner.encode v)

  -- ensureJson
  unfoldable pub ensure_json : String → String
  unfolding fixed
  ensure_json data_of = fixed data_of (runner.unmarshal data_of)

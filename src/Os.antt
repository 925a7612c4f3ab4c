-- ===== src/Os.antt =====
-- The services' surroundings: the operating system, the network, the queue (asynq over Redis) and
-- the AWS client. A machine answers each call, and a run keeps the list of the calls that it made.
pub mod Queue
pub mod Act
pub mod Emits
pub mod Calls
pub mod Outcome
pub mod Gives
pub mod Helpful
use burrowcode.Base.{ℕ, String, Bool, Option, List}
use burrowcode.Golang.Int.{ℤ}
use burrowcode.Golang.Numbers.{Parsed}
use burrowcode.Golang.Errors.{Result}
use burrowcode.Golang.Maps.{Map}
use burrowcode.Json.{Json}

-- `float64`, and how a `time.Time` is spelled. The language's floating-point arithmetic is not
-- reproduced: a value of this record gives it.
pub record Values : Type 1 where
  pub Float : Type 0
  pub of_nat : ℕ → Float
  pub of_int : ℤ → Float
  pub plus : Float → Float → Float
  pub times : Float → Float → Float
  pub divided : Float → Float → Float
  pub less : Float → Float → Bool
  -- `strconv.ParseFloat(s, 64)`
  pub parse_float : String → Parsed Float
  -- the spelling that encoding/json gives a number
  pub format_float : Float → String
  -- `strconv.FormatFloat(x, 'f', 1, 64)`
  pub format_fixed : Float → String
  -- `int64(x)`
  pub truncate : Float → ℤ
  -- the spelling that encoding/json gives a time, which is the number of nanoseconds since the zero time
  pub format_time : ℕ → String
  pub parse_time : String → Option ℕ

-- The body of an HTTP request.
pub data Body : Type 0 where
  empty : Body
  json : Json → Body
  file : String → Body

pub record Request : Type 0 where
  pub method : String
  pub url : String
  pub headers : Map String
  pub body : Body

-- The body of a response, and the JSON value that it spells if it does.
pub record Response : Type 0 where
  pub status : ℕ
  pub text : String
  pub value : Option Json

-- What `Enqueue` is given: a task's type and payload, and the options.
pub record Task : Type 0 where
  pub type_name : String
  pub payload : Json
  pub max_retry : ℤ
  pub queue : String
  pub retention_hours : ℤ
  pub timeout_minutes : Option ℤ

pub data Call : Type 0 where
  -- os.MkdirAll, os.RemoveAll, os.Open, os.Create, os.Stat, os.ReadFile
  mkdir_all remove_all open_file create_file stat_file read_file : String → Call
  -- io.Copy of a source file into a file, and of the last response's body into a file
  copy_file : String → String → Call
  save_body : String → Call
  -- a command's standard output, and its standard output and error together
  run_output run_combined : String → List String → Call
  -- a command whose standard output is a pipe: its lines, its standard error, and how it ended
  run_piped : String → List String → Call
  -- http.NewRequestWithContext, and a client's Do
  new_request : String → String → Call
  send : Request → Call
  -- the AWS client's configuration for a region
  load_aws_config : String → Call
  -- S3's PutObject: bucket, key, body and content type
  put_object : String → String → Body → String → Call
  -- ctx.Err, time.Now
  context_error time_now : Call
  -- asynq's Client.Enqueue and ResultWriter.Write
  enqueue : Task → Call
  write_result : Json → Call

pub record Piped : Type 0 where
  pub lines : List String
  pub stderr : String
  pub failure : Option String

-- A command's output, and its error if it failed.
pub record Output : Type 0 where
  pub text : String
  pub failure : Option String

abbrev pub Reply : Call → Type 0
Reply (mkdir_all path) = Result Unit
Reply (remove_all path) = Result Unit
Reply (open_file path) = Result Unit
Reply (create_file path) = Result Unit
Reply (stat_file path) = Result ℕ
Reply (read_file path) = Result (List String)
Reply (copy_file source dest) = Result Unit
Reply (save_body path) = Result Unit
Reply (run_output name args) = Output
Reply (run_combined name args) = Output
Reply (run_piped name args) = Result Piped
Reply (new_request method url) = Result Unit
Reply (send request) = Result Response
Reply (load_aws_config region) = Result Unit
Reply (put_object bucket key body content_type) = Result Unit
Reply context_error = Option String
Reply time_now = ℕ
Reply (enqueue task) = Result String
Reply (write_result value) = Unit

pub record Machine : Type 1 where
  pub World : Type 0
  pub answer : (c : Call) → World → Reply c × World

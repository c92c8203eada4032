-- ===== src/Logging.antt =====
-- The calls of the logger of src/common/logging/json.logger.ts: which are written, where, and with
-- what message.
pub mod Params
pub mod RequestId
use docent.Base.{
  ℕ, zero, suc, Bool, true, false, not, ◌||◌, Option, none, some, List, [], ◌∷◌, ◌++◌, ltb, leb,
  ◌==◌, if◌then◌else◌, length, keep, any_of, Text, codes, is_space, drop, literal, followed_by,
  run_of, run_then, is_digit,
}
use docent.Errors.{Thrown, describe_thrown}
use docent.Chunker.Lines.{is_line_end}

pub data Level : Type 0 where
  verbose : Level
  debug : Level
  log : Level
  warn : Level
  error : Level
  fatal : Level

-- `LEVEL_SEVERITY`
abbrev severity : Level → ℕ
severity verbose = 0
severity debug = 1
severity log = 2
severity warn = 3
severity error = 4
severity fatal = 5

abbrev all_levels : List Level
all_levels = verbose ∷ debug ∷ log ∷ warn ∷ error ∷ fatal ∷ []

abbrev is_level : Level → Level → Bool
is_level a b = severity a == severity b

-- `Math.max(…)`
abbrev highest : List Level → ℕ
highest [] = 0
highest (level ∷ levels) =
    let rest = highest levels in if ltb rest (severity level) then severity level else rest

unfoldable pub is_level_enabled : List Level → Level → Bool
is_level_enabled [] level = false
is_level_enabled (enabled ∷ levels) level =
    if any_of (is_level level) (enabled ∷ levels)
    then true
    else leb (highest (enabled ∷ levels)) (severity level)

-- A logged value: `undefined`, a string, another primitive, or an object. Of an object the logger
-- reads whether it is an `Error` and its `stack` if that is a string; `Rest` is what is left of it.
module _ (Rest : Type 0) where
  pub data Value : Type 0 where
    undefined : Value
    text : Text → Value
    primitive : Rest → Value
    object : Bool → Option Text → Thrown → Rest → Value

  pub record ParsedCall : Type 0 where
    pub context : Option Text
    pub stack : Option Text
    pub extras : List Value

  -- `^(.)+\n`
  abbrev is_line_char : ℕ → Bool
  is_line_char c = not (is_line_end c)

  abbrev first_line : Text → ℕ
  first_line s = elim (run_of is_line_char s) [
    | zero ↦ 0
    | suc _ ↦ run_then is_line_char (literal (10 ∷ [])) s
  ]

  -- `\s+at `
  abbrev frame_start : Text → ℕ
  frame_start s = elim (run_of is_space s) [
    | zero ↦ 0
    | suc _ ↦ run_then is_space (literal (codes "at ")) s
  ]

  -- `:\d+:\d+`
  abbrev some_digits : Text → ℕ
  some_digits s = run_of is_digit s

  abbrev pub position : Text → ℕ
  position s =
      followed_by (followed_by (literal (codes ":")) some_digits)
        (followed_by (literal (codes ":")) some_digits) s

  -- `.+:\d+:\d+`, found behind at least one character of the line.
  unfoldable pub has_position : Text → Bool
  has_position [] = false
  has_position (c ∷ s) =
      let rest = has_position s in if is_line_end c then false else ltb 0 (position s) || rest

  unfoldable pub is_stack_format : Text → Bool
  unfolding has_position
  is_stack_format s = elim (followed_by first_line frame_start s) [
    | zero ↦ false
    | suc k ↦ has_position (drop (suc k) s)
  ]

  -- The last of the parameters, and those before it.
  abbrev pub last_param : List Value → Value
  last_param [] = undefined
  last_param (v ∷ []) = v
  last_param (_ ∷ v ∷ params) = last_param (v ∷ params)

  abbrev pub without_last : List Value → List Value
  without_last [] = []
  without_last (v ∷ []) = []
  without_last (v ∷ w ∷ params) = v ∷ without_last (w ∷ params)

  abbrev pub non_error_call : Value → List Value → ParsedCall
  non_error_call (text s) params = record {
    context = some s;
    stack = none;
    extras = without_last params;
  }
  non_error_call undefined params = record { context = none; stack = none; extras = params }
  non_error_call (primitive _) params = record { context = none; stack = none; extras = params }
  non_error_call (object _ _ _ _) params = record { context = none; stack = none; extras = params }

  pub parse_non_error_params : List Value → ParsedCall
  parse_non_error_params params = non_error_call (last_param params) params

  abbrev pub context_in : Value → Option Text
  context_in (text s) = if is_stack_format s then none else some s
  context_in undefined = none
  context_in (primitive _) = none
  context_in (object _ _ _ _) = none

  abbrev pub stack_in : Value → Option Text
  stack_in (text s) = if is_stack_format s then some s else none
  stack_in undefined = none
  stack_in (primitive _) = none
  stack_in (object _ _ _ _) = none

  abbrev pub popped : Option Text → List Value → List Value
  popped none params = params
  popped (some _) params = without_last params

  pub parse_error_params : List Value → ParsedCall
  unfolding is_stack_format
  parse_error_params params =
      let context = context_in (last_param params) in
      let rest = popped context params in
      let stack = stack_in (last_param rest) in
      record { context = context; stack = stack; extras = popped stack rest }

  abbrev pub is_filled : Text → Bool
  is_filled s = ltb 0 (length s)

  abbrev with_stack : Text → Option Text → Text
  with_stack description none = description
  with_stack description (some stack) =
      if is_filled stack then description ++ (10 ∷ stack) else description

  abbrev is_some : Option Text → Bool
  is_some none = false
  is_some (some _) = true

  normalize_message : Value → Value
  normalize_message undefined = undefined
  normalize_message (text s) = text s
  normalize_message (primitive p) = primitive p
  normalize_message (object is_error stack thrown rest) =
      if is_error || is_some stack
      then text (with_stack (describe_thrown thrown) stack)
      else object is_error stack thrown rest

  abbrev stacked : Value → Option Text → Value
  stacked (text s) stack = text (with_stack s stack)
  stacked undefined stack = undefined
  stacked (primitive p) stack = primitive p
  stacked (object is_error own thrown rest) stack = object is_error own thrown rest

  abbrev is_meaningful : Value → Bool
  is_meaningful undefined = false
  is_meaningful (text _) = true
  is_meaningful (primitive _) = true
  is_meaningful (object _ _ _ _) = true

  -- A bare value, or an array.
  pub data Message : Type 0 where
    bare : Value → Message
    array : List Value → Message

  abbrev message_of : Value → List Value → Message
  message_of v [] = bare v
  message_of v (extra ∷ extras) = array (v ∷ extra ∷ extras)

  build_message : Value → Option Text → List Value → Message
  unfolding normalize_message
  build_message message stack extras =
      message_of (stacked (normalize_message message) stack) (keep is_meaningful extras)

  pub data Stream : Type 0 where
    stdout : Stream
    stderr : Stream

  abbrev stream_of : Level → Stream
  stream_of verbose = stdout
  stream_of debug = stdout
  stream_of log = stdout
  stream_of warn = stderr
  stream_of error = stderr
  stream_of fatal = stderr

  abbrev pub params_of : Level → List Value → ParsedCall
  params_of error params = parse_error_params params
  params_of verbose params = parse_non_error_params params
  params_of debug params = parse_non_error_params params
  params_of log params = parse_non_error_params params
  params_of warn params = parse_non_error_params params
  params_of fatal params = parse_non_error_params params

  pub record LogRecord : Type 0 where
    pub ts : Text
    pub level : Level
    pub context : Option Text
    request_id : Option Text
    msg : Message

  abbrev record_of : Text → Option Text → Level → Value → ParsedCall → LogRecord
  record_of ts request_id level message call = record {
    ts = ts;
    level = level;
    context = call.context;
    request_id = request_id;
    msg = build_message message call.stack call.extras;
  }

  -- What a call writes, before it is serialised.
  unfoldable pub write :
      List Level → Text → Option Text → Level → Value → List Value → Option (Stream × LogRecord)
  unfolding is_level_enabled parse_error_params parse_non_error_params build_message
  write enabled ts request_id level message params =
      if is_level_enabled enabled level
      then some (stream_of level, record_of ts request_id level message (params_of level params))
      else none

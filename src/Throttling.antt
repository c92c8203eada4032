-- ===== src/Throttling.antt =====
-- The rate limiter's storage: src/common/throttling/redis-throttler.storage.ts.
pub mod Window
use docent.Base.{
  ℕ, zero, suc, ◌+◌, ◌/◌, Bool, false, Option, none, some, List, [], ◌∷◌, ◌++◌, ltb, if◌then◌else◌,
  Text, codes, starts_with,
}

-- The three Redis commands of the script on one server's state. `pttl` gives the time left in
-- milliseconds, and `none` where Redis answers a negative number.
pub record Redis : Type 1 where
  pub State : Type 0
  pub incr : Text → State → ℕ × State
  pub pttl : Text → State → Option ℕ
  pub pexpire : Text → ℕ → State → State

-- What the call to Redis rejects with: a reply with its message, no answer in time, anything else.
pub data Failure : Type 0 where
  reply_error : Option Text → Failure
  timed_out : Failure
  unreachable : Failure

-- How a command fares: it is answered, or fails, and then whether the server ran it.
pub data Delivery : Type 0 where
  answered : Delivery
  lost : Failure → Bool → Delivery

-- The severity of the log line, and what it says is to blame.
pub data LogLine : Type 0 where
  error_out_of_memory : LogLine
  error_script : LogLine
  warn_slow : LogLine
  warn_unreachable : LogLine

pub record ThrottlerRecord : Type 0 where
  pub total_hits : ℕ
  pub time_to_expire : ℕ
  pub is_blocked : Bool
  pub time_to_block_expire : ℕ

-- `OPEN`
abbrev open_record : ThrottlerRecord
open_record = record {
  total_hits = 0;
  time_to_expire = 0;
  is_blocked = false;
  time_to_block_expire = 0;
}

is_out_of_memory : Option Text → Bool
is_out_of_memory none = false
is_out_of_memory (some message) = starts_with message (codes "OOM")

log_line : Failure → LogLine
unfolding is_out_of_memory
log_line (reply_error message) =
    if is_out_of_memory message then error_out_of_memory else error_script
log_line timed_out = warn_slow
log_line unreachable = warn_unreachable

-- `Math.ceil(ms / 1000)`
abbrev seconds_up : ℕ → ℕ
seconds_up ms = (ms + 999) / 1000

-- What is made of the script's reply.
read_reply : ℕ → ℕ → ℕ × ℕ → ThrottlerRecord
read_reply ttl limit (total_hits, pttl_ms) =
    let time_to_expire = seconds_up (if ltb 0 pttl_ms then pttl_ms else ttl) in
    let is_blocked = ltb limit total_hits in
    record {
      total_hits = total_hits;
      time_to_expire = time_to_expire;
      is_blocked = is_blocked;
      time_to_block_expire = if is_blocked then time_to_expire else 0;
    }

module _ (R : Redis) where
  abbrev pub set_missing : Text → ℕ → ℕ → Option ℕ → R.State → (ℕ × ℕ) × R.State
  set_missing key ttl total_hits none s = ((total_hits, ttl), R.pexpire key ttl s)
  set_missing key ttl total_hits (some pttl) s = ((total_hits, pttl), s)

  -- `THROTTLE_INCREMENT_LUA`, one atomic step of the server.
  throttle_increment : Text → ℕ → R.State → (ℕ × ℕ) × R.State
  throttle_increment key ttl s =
      let (total_hits, s') = R.incr key s in set_missing key ttl total_hits (R.pttl key s') s'

  abbrev pub redis_key : Text → Text → Text
  redis_key throttler_name key = codes "throttle:" ++ (throttler_name ++ (b':' ∷ key))

  -- One call of `increment`. A call that fails may have been run on the server all the same.
  pub increment :
      Text → Text → ℕ → ℕ → Delivery → R.State → ThrottlerRecord × Option LogLine × R.State
  unfolding throttle_increment read_reply log_line
  increment throttler_name key ttl limit answered s =
      let (reply, s') = throttle_increment (redis_key throttler_name key) ttl s in
      (read_reply ttl limit reply, none, s')
  increment throttler_name key ttl limit (lost failure was_run) s = (
    open_record,
    some (log_line failure),
    if was_run then (throttle_increment (redis_key throttler_name key) ttl s).1 else s,
  )

  -- Several calls for one client, one after the other, while Redis answers.
  unfoldable pub increments : Text → Text → ℕ → ℕ → ℕ → R.State → List ThrottlerRecord × R.State
  unfolding increment
  increments throttler_name key ttl limit zero s = ([], s)
  increments throttler_name key ttl limit (suc calls) s =
      let (answer, _, s') = increment throttler_name key ttl limit answered s in
      let (answers, s'') = increments throttler_name key ttl limit calls s' in
      (answer ∷ answers, s'')

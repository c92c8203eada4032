-- ===== src/Logging/RequestId.antt =====
-- The identifier of a request: src/common/logging/request-id.middleware.ts.
use docent.Base.{
  ℕ, Bool, ◌&&◌, ◌||◌, Option, none, some, ltb, leb, ◌==◌, if◌then◌else◌, length, all_of, Text,
  trim, is_digit,
}

-- `REQUEST_ID_PATTERN`
abbrev is_id_char : ℕ → Bool
is_id_char c =
    (leb 65 c && leb c 90)
    || (leb 97 c && leb c 122)
    || is_digit c
    || c == b'.'
    || c == b'_'
    || c == b'-'

abbrev is_acceptable_request_id : Text → Bool
is_acceptable_request_id s = leb (length s) 128 && (ltb 0 (length s) && all_of is_id_char s)

abbrev accepted_or : Text → Text → Text
accepted_or fresh inbound = if is_acceptable_request_id inbound then inbound else fresh

-- The identifier of a request with this header, if it has one; `fresh` is a new UUID.
unfoldable pub request_id_of : Option Text → Text → Text
request_id_of none fresh = fresh
request_id_of (some header) fresh = accepted_or fresh (trim header)

-- ===== src/Cache/Client.antt =====
-- The cache of src/common/cache/cache.service.ts over a client of Redis. A call that rejects is
-- taken for a miss, and a failed write is dropped; what is logged is left out.
use docent.Base.{ℕ, ◌≡◌, Option, none, some, Text, Result, ok, err, ◌>>=◌}
use docent.Errors.{Thrown}

-- The two commands of ioredis on the state of the server. A write that rejects may have been done.
pub record Client : Type 1 where
  pub State : Type 0
  pub get : Text → State → Result Thrown (Option Text)
  pub set : Text → Text → ℕ → State → Result Thrown (Unit {0}) × State

abbrev or_miss : {V : Type 0} → Result Thrown (Option V) → Option V
or_miss (ok found) = found
or_miss (err _) = none

module _ (client : Client) where
  -- `parse` and `stringify` are `JSON.parse` and `JSON.stringify` at the type that is cached.
  module _ {V : Type 0} (parse : Text → Result Thrown V) (stringify : V → Result Thrown Text) where
    abbrev pub parsed : Option Text → Result Thrown (Option V)
    parsed none = ok none
    parsed (some raw) = parse raw >>= λ v. ok (some v)

    unfoldable pub get_json : Text → client.State → Option V
    get_json key s = or_miss (client.get key s >>= parsed)

    abbrev after_stringify : Text → ℕ → Result Thrown Text → client.State → client.State
    after_stringify key ttl_seconds (ok raw) s = (client.set key raw ttl_seconds s).1
    after_stringify key ttl_seconds (err _) s = s

    unfoldable pub set_json : Text → V → ℕ → client.State → client.State
    set_json key v ttl_seconds s = after_stringify key ttl_seconds (stringify v) s

  -- `encode` and `decode` are `encodeVector` and `decodeVector`: the bytes of 32-bit floats in
  -- base64, which do not throw.
  module _ {Vector : Type 0} (encode : Vector → Text) (decode : Text → Vector) where
    abbrev decoded : Option Text → Option Vector
    decoded none = none
    decoded (some raw) = some (decode raw)

    unfoldable pub get_vector : Text → client.State → Option Vector
    get_vector key s = or_miss (client.get key s >>= λ raw. ok (decoded raw))

    unfoldable pub set_vector : Text → Vector → ℕ → client.State → client.State
    set_vector key v ttl_seconds s = (client.set key (encode v) ttl_seconds s).1

  -- A server that is reached and keeps what it is given, for as long as is looked at.
  pub record IsKept : Type 0 where
    pub get_set :
        (key raw : Text) (ttl : ℕ) (s : client.State)
        → client.get key (client.set key raw ttl s).1 ≡ ok (some raw)

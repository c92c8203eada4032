-- ===== src/Throttling/Window.antt =====
-- The counting window of src/common/throttling/redis-throttler.storage.ts.
use docent.Base.{
  ℕ, zero, suc, ◌<◌, ◌≡◌, refl, sym, ap, ◌∙◌, ◌↔◌, true, Option, none, some, List, [], ◌∷◌, ltb,
  ltb→lt, lt→ltb, Text,
}
use docent.Throttling.{
  answered, Redis, ThrottlerRecord, set_missing, redis_key, increment, increments,
}

module _ (R : Redis) where
  -- What Redis documents of the commands, with the value that a counter key holds: `INCR` adds one
  -- and leaves the time to live, `PEXPIRE` sets that time and leaves the value.
  pub record IsRedis : Type 0 where
    pub value : Text → R.State → ℕ
    pub incr_reply : (k : Text) (s : R.State) → (R.incr k s).0 ≡ suc (value k s)
    pub value_incr : (k : Text) (s : R.State) → value k (R.incr k s).1 ≡ suc (value k s)
    pub pttl_incr : (k : Text) (s : R.State) → R.pttl k (R.incr k s).1 ≡ R.pttl k s
    pub value_pexpire : (k : Text) (ms : ℕ) (s : R.State) → value k (R.pexpire k ms s) ≡ value k s
    pub pttl_pexpire : (k : Text) (ms : ℕ) (s : R.State) → R.pttl k (R.pexpire k ms s) ≡ some ms

  module _ (redis : IsRedis) (throttler_name key : Text) (ttl limit : ℕ) where
    abbrev k : Text
    k = redis_key R throttler_name key

    set_missing-value :
        (hits : ℕ) (left : Option ℕ) (s : R.State)
        → redis.value k (set_missing R k ttl hits left s).1 ≡ redis.value k s
    set_missing-value hits none s = redis.value_pexpire k ttl s
    set_missing-value hits (some pttl) s = refl

    set_missing-hits :
        (hits : ℕ) (left : Option ℕ) (s : R.State) → (set_missing R k ttl hits left s).0.0 ≡ hits
    set_missing-hits hits none s = refl
    set_missing-hits hits (some pttl) s = refl

    -- Behind a call the key expires: as before if it did before, and in the whole window if not.
    abbrev expiry : Option ℕ → ℕ
    expiry none = ttl
    expiry (some pttl) = pttl

    set_missing-pttl :
        (hits : ℕ) (left : Option ℕ) (s : R.State)
        → R.pttl k s ≡ left
        → R.pttl k (set_missing R k ttl hits left s).1 ≡ some (expiry left)
    set_missing-pttl hits none s h = redis.pttl_pexpire k ttl s
    set_missing-pttl hits (some pttl) s h = h

    -- On a server whose commands do what Redis documents, a call that Redis answers never leaves a
    -- counter that does not expire: a key without a time to live gets the whole window, and
    -- another keeps the time it has.
    pub increment-expires :
        (s : R.State)
        → R.pttl k (increment R throttler_name key ttl limit answered s).2
          ≡ some (expiry (R.pttl k s))
    unfolding increment
    increment-expires s =
        set_missing-pttl _ (R.pttl k (R.incr k s).1) (R.incr k s).1 refl
        ∙ ap (λ (left : Option ℕ). some (expiry left)) (redis.pttl_incr k s)

    increment-hits :
        (s : R.State)
        → ((increment R throttler_name key ttl limit answered s).0.total_hits
            ≡ suc (redis.value k s))
          × ((increment R throttler_name key ttl limit answered s).0.is_blocked
              ≡ ltb limit (suc (redis.value k s)))
          × (redis.value k (increment R throttler_name key ttl limit answered s).2
              ≡ suc (redis.value k s))
    unfolding increment
    increment-hits s =
        let hits =
          set_missing-hits (R.incr k s).0 (R.pttl k (R.incr k s).1) (R.incr k s).1
          ∙ redis.incr_reply k s in
        (
          hits,
          ap (ltb limit) hits,
          set_missing-value (R.incr k s).0 (R.pttl k (R.incr k s).1) (R.incr k s).1
              ∙ redis.value_incr k s,
        )

    -- The answers count on from a number of hits, and block exactly those above the limit.
    abbrev pub CountsFrom : ℕ → List ThrottlerRecord → Type 0
    CountsFrom hits [] = Unit
    CountsFrom hits (answer ∷ answers) =
        (answer.total_hits ≡ suc hits)
        × ((answer.is_blocked ≡ true) ↔ (limit < suc hits))
        × CountsFrom (suc hits) answers

    -- On a server whose commands do what Redis documents, while the window lasts, the calls of one
    -- client are numbered on from the hits before, and a call is blocked exactly when its number
    -- is above the limit.
    pub increments-CountsFrom :
        (calls : ℕ) (s : R.State)
        → CountsFrom (redis.value k s) (increments R throttler_name key ttl limit calls s).0
    unfolding increments
    increments-CountsFrom zero s = tt
    increments-CountsFrom (suc calls) s =
        let (hits, blocked, next) = increment-hits s in
        let rest =
          increments-CountsFrom calls (increment R throttler_name key ttl limit answered s).2 in
        (hits, (λ h. ltb→lt _ _ (sym blocked ∙ h), λ h. blocked ∙ lt→ltb _ _ h), rw next at rest)

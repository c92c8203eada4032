-- ===== src/Tests/Throttles.antt =====
-- The rate limiter's storage on a server with one counter per key.
use docent.Base.{
  ℕ, suc, ◌≡◌, refl, true, false, Option, none, some, [], ◌∷◌, if◌then◌else◌, Text, codes, text_eq,
  text_eq_refl,
}
use docent.Throttling.{answered, Redis, increment, increments}
use docent.Throttling.Window.{IsRedis, CountsFrom, increment-expires, increments-CountsFrom}

-- A server is what each key holds: its counter and its time to live.
abbrev Server : Type 0
Server = Text → ℕ × Option ℕ

abbrev store_at : Text → ℕ × Option ℕ → Server → Server
store_at k entry s = λ j. if text_eq k j then entry else s j

abbrev server : Redis
server = record {
  State = Server;
  incr = λ k s. (suc (s k).0, store_at k (suc (s k).0, (s k).1) s);
  pttl = λ k s. (s k).1;
  pexpire = λ k ms s. store_at k ((s k).0, some ms) s;
}

abbrev server_laws : IsRedis server
server_laws = record {
  value = λ k s. (s k).0;
  incr_reply = λ k s. refl;
  value_incr = λ k s. rw (text_eq_refl k);
  pttl_incr = λ k s. rw (text_eq_refl k);
  value_pexpire = λ k ms s. rw (text_eq_refl k);
  pttl_pexpire = λ k ms s. rw (text_eq_refl k);
}

abbrev fresh : Server
fresh = λ _. (0, none)

-- The third call of a window with room for two is blocked, for the window's whole time.
third_is_blocked :
    (increments server (codes "ask") (codes "ip") 60000 2 3 fresh).0
    ≡ record { total_hits = 1; time_to_expire = 60; is_blocked = false; time_to_block_expire = 0 }
      ∷ record { total_hits = 2; time_to_expire = 60; is_blocked = false; time_to_block_expire = 0 }
      ∷ record { total_hits = 3; time_to_expire = 60; is_blocked = true; time_to_block_expire = 60 }
      ∷ []
unfolding increments text_eq
third_is_blocked = refl

increments-CountsFrom_example :
    CountsFrom server server_laws
      (codes "ask")
      (codes "ip")
      60000
      2
      0
      (increments server (codes "ask") (codes "ip") 60000 2 3 fresh).0
increments-CountsFrom_example =
    increments-CountsFrom server server_laws (codes "ask") (codes "ip") 60000 2 3 fresh

increment-expires_example :
    server.pttl
      (codes "throttle:ask:ip")
      (increment server (codes "ask") (codes "ip") 60000 2 answered fresh).2
    ≡ some 60000
increment-expires_example =
    increment-expires server server_laws (codes "ask") (codes "ip") 60000 2 fresh

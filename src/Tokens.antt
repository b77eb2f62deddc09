-- ===== src/Tokens.antt =====
-- notification-service/internal/hub/token.go: the one-time tokens for the SSE stream.
-- The Go map is a function; the mutex makes each operation one step. Times are nanoseconds, and the
-- clock and `uuid.New` are arguments.
pub mod Lifetime
pub mod Cleanup
use meeting_room_booking_sys.Prelude.{
  ℕ, ◌+◌, ◌*◌, Bool, Option, none, some, List, [], ◌∷◌, ltb, ◌==◌, if◌then◌else◌,
}

abbrev pub second : ℕ
second = 1000000000

-- `const tokenTTL = 30 * time.Second`
abbrev pub token_ttl : ℕ
token_ttl = 30 * second

pub record TokenEntry : Type 0 where
  pub user_id : ℕ
  pub expires_at : ℕ

abbrev pub TokenStore : Type 0
TokenStore = ℕ → Option TokenEntry

unfoldable pub new_store : TokenStore
new_store token = none

abbrev pub write : TokenStore → ℕ → Option TokenEntry → TokenStore
write s token e t = if t == token then e else s t

-- `token` is what `uuid.New` returned.
unfoldable pub issue : TokenStore → ℕ → ℕ → ℕ → TokenStore
issue s token user_id now =
    write s token (some (record { user_id = user_id; expires_at = now + token_ttl }))

-- `time.Now().After(entry.expiresAt)`
abbrev pub is_expired : ℕ → TokenEntry → Bool
is_expired now e = ltb e.expires_at now

abbrev pub redeem : ℕ → Option TokenEntry → Option ℕ
redeem now none = none
redeem now (some e) = if is_expired now e then none else some e.user_id

-- The token is deleted before it is looked at; `none` is the answer `false`.
unfoldable pub consume : TokenStore → ℕ → ℕ → TokenStore × Option ℕ
consume s token now = (write s token none, redeem now (s token))

abbrev pub keep : ℕ → Option TokenEntry → Option TokenEntry
keep now none = none
keep now (some e) = if is_expired now e then none else some e

-- One tick of the goroutine `cleanup`.
unfoldable pub cleanup : TokenStore → ℕ → TokenStore
cleanup s now token = keep now (s token)

-- What callers and the ticker do, each at a time.
pub data Call : Type 0 where
  issues : ℕ → ℕ → Call
  consumes : ℕ → Call
  cleans : Call

-- The answers that a history of calls gives.
unfoldable pub run : TokenStore → List (ℕ × Call) → List (Option ℕ)
unfolding issue consume cleanup
run s [] = []
run s ((now, issues token user_id) ∷ cs) = run (issue s token user_id now) cs
run s ((now, consumes token) ∷ cs) = (consume s token now).1 ∷ run (consume s token now).0 cs
run s ((now, cleans) ∷ cs) = run (cleanup s now) cs

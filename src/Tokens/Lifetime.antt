-- ===== src/Tokens/Lifetime.antt =====
-- A token opens one stream, of its own user, within its lifetime.
use meeting_room_booking_sys.Prelude.{
  ℕ, ◌+◌, ◌≤◌, ◌≡◌, ◌≢◌, Option, none, some, List, [], ◌∷◌, arith, ltb, ◌==◌, if◌then◌else◌, All,
}
use meeting_room_booking_sys.Tokens.{
  TokenStore, TokenEntry, Call, issues, consumes, cleans, token_ttl, issue, consume, cleanup,
}

-- The store after a history.
unfoldable pub after : TokenStore → List (ℕ × Call) → TokenStore
unfolding issue consume cleanup
after s [] = s
after s ((now, issues token user_id) ∷ cs) = after (issue s token user_id now) cs
after s ((now, consumes token) ∷ cs) = after (consume s token now).0 cs
after s ((now, cleans) ∷ cs) = after (cleanup s now) cs

-- A call that neither issues nor consumes the token, and is made within the limit of time.
abbrev pub Leaves : ℕ → ℕ → ℕ × Call → Type 0
Leaves token limit (now, issues t u) = t ≢ token
Leaves token limit (now, consumes t) = t ≢ token
Leaves token limit (now, cleans) = now ≤ limit

after-Leaves :
    (s : TokenStore) (token : ℕ) (e : TokenEntry) (cs : List (ℕ × Call))
    → All (Leaves token e.expires_at) cs
    → s token ≡ some e
    → after s cs token ≡ some e
unfolding after
after-Leaves s token e [] h at = at
after-Leaves s token e ((now, issues t u) ∷ cs) h at =
    after-Leaves (issue s t u now) token e cs h.1 (unfold issue in ground arith)
after-Leaves s token e ((now, consumes t) ∷ cs) h at =
    after-Leaves (consume s t now).0 token e cs h.1 (unfold consume in ground arith)
after-Leaves s token e ((now, cleans) ∷ cs) h at =
    after-Leaves (cleanup s now) token e cs h.1 (unfold cleanup in ground arith)

-- A token that was issued to a user at `t0`, whatever other calls come between (other tokens, and
-- ticks of the cleanup up to the end of its lifetime), is answered by the user exactly up to
-- `t0 + token_ttl`, and refused later.
pub consume-issue :
    (s : TokenStore) (token user_id t0 now : ℕ) (cs : List (ℕ × Call))
    → All (Leaves token (t0 + token_ttl)) cs
    → (consume (after (issue s token user_id t0) cs) token now).1
      ≡ (if ltb (t0 + token_ttl) now then none else some user_id)
unfolding consume
consume-issue s token user_id t0 now cs h = rw (
    after-Leaves (issue s token user_id t0) token
      (record { user_id = user_id; expires_at = t0 + token_ttl }) cs h
      (unfold issue in ground arith))

abbrev pub is_issue_of : ℕ → ℕ × Call → ℕ
is_issue_of token (now, issues t u) = if t == token then 1 else 0
is_issue_of token (now, consumes t) = 0
is_issue_of token (now, cleans) = 0

abbrev pub issued : ℕ → List (ℕ × Call) → ℕ
issued token [] = 0
issued token (c ∷ cs) = is_issue_of token c + issued token cs

abbrev accepted : Option ℕ → ℕ
accepted none = 0
accepted (some u) = 1

-- How often the history's calls of `Consume` accept the token.
unfoldable pub successes : ℕ → TokenStore → List (ℕ × Call) → ℕ
successes token s [] = 0
successes token s ((now, issues t u) ∷ cs) = successes token (issue s t u now) cs
successes token s ((now, consumes t) ∷ cs) =
    (if t == token then accepted (consume s t now).1 else 0)
    + successes token (consume s t now).0 cs
successes token s ((now, cleans) ∷ cs) = successes token (cleanup s now) cs

abbrev held : Option TokenEntry → ℕ
held none = 0
held (some e) = 1

successes_bound :
    (token : ℕ) (s : TokenStore) (cs : List (ℕ × Call))
    → successes token s cs ≤ held (s token) + issued token cs
unfolding successes issue consume cleanup
successes_bound token s [] = omega arith
successes_bound token s ((now, issues t u) ∷ cs) =
    ground (arith, successes_bound token (issue s t u now) cs)
successes_bound token s ((now, consumes t) ∷ cs) =
    ground (arith, successes_bound token (consume s t now).0 cs)
successes_bound token s ((now, cleans) ∷ cs) =
    ground (arith, successes_bound token (cleanup s now) cs)

-- Over any history that starts with the token absent, a token is accepted at most as often as it
-- was issued: with fresh tokens, once.
pub successes-le-issued :
    (token : ℕ) (s : TokenStore) (cs : List (ℕ × Call))
    → s token ≡ none
    → successes token s cs ≤ issued token cs
successes-le-issued token s cs e = ground (arith, successes_bound token s cs)

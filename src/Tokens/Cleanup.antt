-- ===== src/Tokens/Cleanup.antt =====
-- The cleanup goroutine frees memory only: no caller can tell whether it ran.
use meeting_room_booking_sys.Prelude.{
  ℕ, ◌≤◌, ◌≡◌, refl, Option, none, List, [], ◌∷◌, arith, ap, ap₂, sym, ◌∙◌,
}
use meeting_room_booking_sys.Tokens.{
  TokenStore, TokenEntry, Call, issues, consumes, cleans, run, redeem, keep, write,
}

-- The clock does not go back.
abbrev pub Ordered : ℕ → List (ℕ × Call) → Type 0
Ordered now [] = Unit {0}
Ordered now ((t, c) ∷ cs) = (now ≤ t) × Ordered t cs

pub without_cleans : List (ℕ × Call) → List (ℕ × Call)
without_cleans [] = []
without_cleans ((t, issues token u) ∷ cs) = (t, issues token u) ∷ without_cleans cs
without_cleans ((t, consumes token) ∷ cs) = (t, consumes token) ∷ without_cleans cs
without_cleans ((t, cleans) ∷ cs) = without_cleans cs

-- From a time on, two stores hold the same entries that have not expired.
abbrev Agree : ℕ → TokenStore → TokenStore → Type 0
Agree now s t = (later token : ℕ) → now ≤ later → keep later (s token) ≡ keep later (t token)

redeem_of_keep : (now : ℕ) (e : Option TokenEntry) → redeem now e ≡ redeem now (keep now e)
redeem_of_keep now e = ground arith

keep-keep :
    (now later : ℕ) (e : Option TokenEntry) → now ≤ later → keep later (keep now e) ≡ keep later e
keep-keep now later e h = ground arith

Agree-write :
    (now t : ℕ) (a b : TokenStore) (token : ℕ) (e : Option TokenEntry)
    → now ≤ t
    → Agree now a b
    → Agree t (write a token e) (write b token e)
Agree-write now t a b token e h agree later j le = ground (arith, agree later j)

run-Agree :
    (now : ℕ) (a b : TokenStore) (cs : List (ℕ × Call))
    → Ordered now cs
    → Agree now a b
    → run a cs ≡ run b (without_cleans cs)
unfolding run without_cleans
run-Agree now a b [] o agree = refl
run-Agree now a b ((t, issues token u) ∷ cs) o agree =
    run-Agree t _ _ cs o.1 (Agree-write now t a b token _ o.0 agree)
run-Agree now a b ((t, consumes token) ∷ cs) o agree =
    ap₂ ◌∷◌
      (redeem_of_keep t (a token)
        ∙ ap (redeem t) (agree t token o.0)
        ∙ sym (redeem_of_keep t (b token)))
      (run-Agree t _ _ cs o.1 (Agree-write now t a b token none o.0 agree))
run-Agree now a b ((t, cleans) ∷ cs) o agree =
    run-Agree t _ b cs o.1
      λ later token le. keep-keep t later (a token) le ∙ agree later token (omega arith)

-- Over any history in the order of time, the answers of `Consume` are those of the history without
-- the ticks of the cleanup.
pub run-without_cleans :
    (s : TokenStore) (now : ℕ) (cs : List (ℕ × Call))
    → Ordered now cs
    → run s cs ≡ run s (without_cleans cs)
run-without_cleans s now cs o = run-Agree now s s cs o (λ later token le. refl)

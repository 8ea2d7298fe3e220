-- ===== src/Session/Ends.antt =====
-- What an action on a session leads to: a condition on the run where it returns and another one where
-- it raises, put together along the action.
use open_slt.Errors.{Result, ok, raised, Action, resume_with}
use open_slt.Domain.{TestRun}
use open_slt.Session.{Session}

-- The result satisfies the first condition, or the state left by an exception the second one.
abbrev pub Ends :
    {A : Type 0} → (A → TestRun → Type 0) → (TestRun → Type 0) → Result A × Session → Type 0
Ends Q E (ok a, s) = Q a s.run
Ends Q E (raised _, s) = E s.run

module _ {A B : Type 0} (P : A → TestRun → Type 0) (Q : B → TestRun → Type 0)
    (E : TestRun → Type 0) where
  -- an action that goes on after one that ends so
  pub goes_on :
      (f : A → Action Session B) (r : Result A × Session)
      → Ends P E r
      → ((a : A) (s : Session) → P a s.run → Ends Q E (f a s))
      → Ends Q E (resume_with f r)
  goes_on f (ok a, s) h k = k a s h
  goes_on f (raised e, s) h k = h

module _ {A : Type 0} (P Q : A → TestRun → Type 0) (E : TestRun → Type 0) where
  -- a weaker condition on the result
  pub Ends-weaken :
      (r : Result A × Session)
      → ((a : A) (run : TestRun) → P a run → Q a run)
      → Ends P E r
      → Ends Q E r
  Ends-weaken (ok a, s) k h = k a s.run h
  Ends-weaken (raised e, s) k h = h

-- with nothing said of an exception
pub Ends-forget :
    {A : Type 0} (Q : A → TestRun → Type 0) (E : TestRun → Type 0) (r : Result A × Session)
    → Ends Q E r
    → Ends Q (λ _. Unit) r
Ends-forget Q E (ok a, s) h = h
Ends-forget Q E (raised e, s) h = tt

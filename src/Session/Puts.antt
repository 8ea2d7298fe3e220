-- ===== src/Session/Puts.antt =====
-- Writing the fields of one step (`put_step`), and which steps are found afterwards.
use open_slt.Prelude.{ℕ, true, ◌≡◌, ◌≢◌, refl, some, List, [], ◌∷◌, arith, find, modify_first}
use open_slt.Domain.{RunStep}
use open_slt.Session.{has_step_id, is_unfinished}

pub put_step_again :
    (a b : RunStep) (steps : List RunStep)
    → a.id ≡ b.id
    → modify_first (has_step_id a.id) (λ _. a) (modify_first (has_step_id b.id) (λ _. b) steps)
      ≡ modify_first (has_step_id a.id) (λ _. a) steps
put_step_again a b [] h = refl
put_step_again a b (x ∷ xs) h = ground (arith, put_step_again a b xs h)

-- the first unfinished step, written anew and still unfinished, is the first unfinished one
pub current-put_step :
    (a c : RunStep) (steps : List RunStep)
    → find is_unfinished steps ≡ some c
    → c.id ≡ a.id
    → is_unfinished a ≡ true
    → find is_unfinished (modify_first (has_step_id a.id) (λ _. a) steps) ≡ some a
current-put_step a c [] f h u = cc
current-put_step a c (x ∷ xs) f h u = ground (arith, current-put_step a c xs)

pub other-put_step :
    (a : RunStep) (j : ℕ) (steps : List RunStep)
    → j ≢ a.id
    → find (has_step_id j) (modify_first (has_step_id a.id) (λ _. a) steps)
      ≡ find (has_step_id j) steps
other-put_step a j [] n = refl
other-put_step a j (x ∷ xs) n = ground (arith, other-put_step a j xs n)

pub own-put_step :
    (a b : RunStep) (steps : List RunStep)
    → find (has_step_id a.id) steps ≡ some b
    → find (has_step_id a.id) (modify_first (has_step_id a.id) (λ _. a) steps) ≡ some a
own-put_step a b [] f = cc
own-put_step a b (x ∷ xs) f = ground (arith, own-put_step a b xs)

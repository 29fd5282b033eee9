-- ===== src/Newsletter/Tasks.antt =====
-- The task list of a batch in service/newsletter-service.ts: positions, addresses and phases.
use mailgun_ses_proxy.Base.{
  ℕ, zero, suc, ◌≤◌, ◌≡◌, refl, String, Bool, true, false, none, some, List, [], ◌∷◌, ◌==◌,
  if◌then◌else◌, arith, ap, Bool-cases, inl, inr,
}
use mathlib.Core.Path.{subst}
use mailgun_ses_proxy.Newsletter.{
  Phase, checking, Tasks, start_tasks, recipients, task_at, set_phase, all_settled, is_settled,
  is_rejected, failed_count,
}

abbrev pub count_if {ℓ} : {A : Type ℓ} → (A → Bool) → List A → ℕ
count_if p [] = 0
count_if p (x ∷ xs) = if p x then suc (count_if p xs) else count_if p xs

pub recipients-set_phase :
    (n : ℕ) (p : Phase) (tasks : Tasks) → recipients (set_phase n p tasks) ≡ recipients tasks
unfolding set_phase
recipients-set_phase n p [] = refl
recipients-set_phase zero p ((b, q) ∷ tasks) = refl
recipients-set_phase (suc n) p ((b, q) ∷ tasks) =
    ap (λ rest. b ∷ rest) (recipients-set_phase n p tasks)

pub recipients-start_tasks : (to : List String) → recipients (start_tasks to) ≡ to
recipients-start_tasks [] = refl
recipients-start_tasks (b ∷ to) = ap (λ rest. b ∷ rest) (recipients-start_tasks to)

nothing_at : {A B : Type 0} {x : B} → none ≡ some x → A
nothing_at {x = x} e = absurd (wrong e)
  where
    wrong : none ≡ some x → ⊥
    wrong e = cc

module _ (a : String) (p : Phase) where
  pub task_at-start :
      (n : ℕ) (tasks : Tasks)
      → task_at n tasks ≡ some (a, p)
      → task_at n (start_tasks (recipients tasks)) ≡ some (a, checking)
  unfolding task_at
  task_at-start n [] e = nothing_at e
  task_at-start zero ((b, q) ∷ tasks) e = ground (arith, e)
  task_at-start (suc n) (task ∷ tasks) e = task_at-start n tasks e

  pub task_at-set_phase :
      (n : ℕ) (p' : Phase) (tasks : Tasks)
      → task_at n tasks ≡ some (a, p)
      → task_at n (set_phase n p' tasks) ≡ some (a, p')
  unfolding task_at set_phase
  task_at-set_phase n p' [] e = nothing_at e
  task_at-set_phase zero p' ((b, q) ∷ tasks) e = ground (arith, e)
  task_at-set_phase (suc n) p' (task ∷ tasks) e = task_at-set_phase n p' tasks e

  pub settled_of_all :
      (n : ℕ) (tasks : Tasks)
      → all_settled tasks ≡ true
      → task_at n tasks ≡ some (a, p)
      → is_settled p ≡ true
  unfolding task_at
  settled_of_all n [] all e = nothing_at e
  settled_of_all zero ((b, q) ∷ tasks) all e = ground (arith, e, all)
  settled_of_all (suc n) ((b, q) ∷ tasks) all e = settled_of_all n tasks (ground (arith, all)) e

  pub not_rejected :
      (n : ℕ) (tasks : Tasks)
      → failed_count tasks ≡ 0
      → task_at n tasks ≡ some (a, p)
      → is_rejected p ≡ false
  unfolding task_at
  not_rejected n [] none_failed e = nothing_at e
  not_rejected zero ((b, q) ∷ tasks) none_failed e = ground (arith, e, none_failed)
  not_rejected (suc n) ((b, q) ∷ tasks) none_failed e =
      not_rejected n tasks (ground (arith, none_failed)) e

pub task_at-set_other :
    (m n : ℕ) (p : Phase) (tasks : Tasks)
    → (m == n) ≡ false
    → task_at n (set_phase m p tasks) ≡ task_at n tasks
unfolding task_at set_phase
task_at-set_other m n p [] h = refl
task_at-set_other zero zero p ((b, q) ∷ tasks) h = ground (arith, h)
task_at-set_other zero (suc n) p ((b, q) ∷ tasks) h = refl
task_at-set_other (suc m) zero p ((b, q) ∷ tasks) h = refl
task_at-set_other (suc m) (suc n) p ((b, q) ∷ tasks) h =
    task_at-set_other m n p tasks (ground (arith, h))

-- Two positions with addresses that `same` takes for one are counted twice.
module _ (same : String → Bool) where
  counted :
      (n : ℕ) (a : String) (p : Phase) (tasks : Tasks)
      → task_at n tasks ≡ some (a, p)
      → same a ≡ true
      → 1 ≤ count_if same (recipients tasks)
  unfolding task_at
  counted n a p [] e h = nothing_at e
  counted zero a p ((b, q) ∷ tasks) e h = let address : b ≡ a = cc in rw (address, h) (ground arith)
  counted (suc n) a p ((b, q) ∷ tasks) e h = ground (arith, counted n a p tasks e h)

  pub alone_at :
      (m n : ℕ) (a b : String) (p q : Phase) (tasks : Tasks)
      → count_if same (recipients tasks) ≤ 1
      → task_at n tasks ≡ some (a, p)
      → same a ≡ true
      → task_at m tasks ≡ some (b, q)
      → (m == n) ≡ false
      → same b ≡ false
  unfolding task_at
  alone_at m n a b p q [] one e h f differs = nothing_at e
  alone_at zero zero a b p q (task ∷ tasks) one e h f differs = ground (arith, differs)
  alone_at zero (suc n) a b p q ((x, r) ∷ tasks) one e h f differs =
      let address : x ≡ b = cc in
      subst (λ x. same x ≡ false) address (ground (arith, one, counted n a p tasks e h))
  alone_at (suc m) zero a b p q ((x, r) ∷ tasks) one e h f differs =
      let address : x ≡ a = cc in
      let head : same x ≡ true = rw address h in
      elim (Bool-cases (same b)) [
        | inl found ↦ ground (arith, one, head, counted m b q tasks f found)
        | inr other ↦ other
      ]
  alone_at (suc m) (suc n) a b p q ((x, r) ∷ tasks) one e h f differs =
      alone_at m n a b p q tasks (ground (arith, one)) e h f (ground (arith, differs))

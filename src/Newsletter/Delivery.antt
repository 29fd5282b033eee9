-- ===== src/Newsletter/Delivery.antt =====
-- No recipient gets a newsletter twice without a CRITICAL log line: service/newsletter-service.ts
-- over all interleavings of the tasks and all redeliveries of the queue message.
use mailgun_ses_proxy.Base.{
  ℕ, ◌+◌, ◌≤◌, ◌≡◌, refl, ◌∙◌, String, Bool, ◌==◌, true, false, Option, none, some, List, [], ◌∷◌,
  str_eq, eq_refl, arith, Bool-cases, inl, inr,
}
use mathlib.Core.Path.{subst}
use mailgun_ses_proxy.Newsletter.{
  Weather, World, Campaign, Phase, checking, sending, recording, noting_error, fulfilled, rejected,
  System, Move, goes_on, redelivered, advance, step, run, recipients, task_at, all_settled,
  is_settled, advance_found, is_rejected, batch_result, completed,
}
use mailgun_ses_proxy.Newsletter.Tasks.{
  count_if, recipients-set_phase, recipients-start_tasks, task_at-start, task_at-set_phase,
  task_at-set_other, settled_of_all, not_rejected, alone_at,
}
use mailgun_ses_proxy.Newsletter.Sending.{
  rows, accepted_mails, critical_lines, is_fulfilled, Account, advance-Account, Untouched,
  advance-Untouched,
}

abbrev pub is_same : Campaign → (a b : String) → Bool
is_same c a b = str_eq (c.collation_key b) (c.collation_key a)

-- The task at the position is the recipient's, and no other entry of `to` is an address that the
-- server takes for the recipient's.
pub record Inv (c : Campaign) (n : ℕ) (a : String) (s : System) : Type 0 where
  pub phase : Phase
  pub task : task_at n s.tasks ≡ some (a, phase)
  pub alone : count_if (is_same c a) (recipients s.tasks) ≤ 1
  pub account : Account c a phase s.world

-- A task that has settled starts anew with the account as it is.
restart-Account :
    (c : Campaign) (a : String) (p : Phase) (w : World)
    → is_settled p ≡ true
    → Account c a p w
    → Account c a checking w
restart-Account c a fulfilled w h v = record {
  balance = v.balance;
  at_most_one = v.at_most_one;
  unrecorded = λ e. absurd (wrong e);
  recorded = λ e. absurd (wrong e);
}
  where
    wrong : false ≡ true → ⊥
    wrong e = cc
restart-Account c a (rejected error) w h v = record {
  balance = v.balance;
  at_most_one = v.at_most_one;
  unrecorded = λ e. absurd (wrong e);
  recorded = λ e. absurd (wrong e);
}
  where
    wrong : false ≡ true → ⊥
    wrong e = cc
restart-Account c a checking w h v = v
restart-Account c a sending w h v = cc
restart-Account c a (recording id) w h v = cc
restart-Account c a (noting_error error) w h v = cc

keep-Account :
    (c : Campaign) (a : String) (p : Phase) (w w' : World)
    → Untouched c a w w'
    → Account c a p w
    → Account c a p w'
keep-Account c a p w w' u v = record {
  balance = ground (arith, v.balance, u.same_rows, u.same_accepted, u.same_critical);
  at_most_one = ground (arith, v.at_most_one, u.same_rows);
  unrecorded = λ e. u.same_rows ∙ v.unrecorded e;
  recorded = λ e. u.same_rows ∙ v.recorded e;
}

module _ (c : Campaign) (n : ℕ) (a : String) (named : str_eq a "" ≡ false) where
  own-Inv :
      (s : System) (weather : Weather) → Inv c n a s → Inv c n a (step c s (goes_on n weather))
  unfolding step
  own-Inv s weather v =
      rw (v.task, advance_found)
        (record {
          phase = (advance c a weather v.phase s.world).0;
          task = task_at-set_phase a v.phase n _ s.tasks v.task;
          alone = rw (recipients-set_phase n _ s.tasks) v.alone;
          account = advance-Account c a named weather s.world v.phase v.account;
        })

  other-Inv :
      (s : System) (m : ℕ) (weather : Weather)
      → (m == n) ≡ false
      → Inv c n a s
      → Inv c n a (step c s (goes_on m weather))
  unfolding step
  other-Inv s m weather differs v = by_task (task_at m s.tasks) refl
    where
      by_task :
          (o : Option (String × Phase))
          → task_at m s.tasks ≡ o
          → Inv c n a (advance_found c m weather s o)
      by_task none e = v
      by_task (some (b, q)) e = record {
        phase = v.phase;
        task = task_at-set_other m n _ s.tasks differs ∙ v.task;
        alone = rw (recipients-set_phase m (advance c b weather q s.world).0 s.tasks) v.alone;
        account =
            keep-Account c a v.phase s.world _
              (advance-Untouched c a b
                (alone_at (is_same c a) m n a b v.phase q s.tasks v.alone v.task
                  (eq_refl (c.collation_key a)) e differs)
                weather s.world q)
              v.account;
      }

  restart-Inv : (s : System) → Inv c n a s → Inv c n a (step c s redelivered)
  unfolding step
  restart-Inv s v = elim (Bool-cases (all_settled s.tasks)) [
    | inl all ↦ rw all (record {
      phase = checking;
      task = task_at-start a v.phase n s.tasks v.task;
      alone = rw (recipients-start_tasks (recipients s.tasks)) v.alone;
      account =
          restart-Account c a v.phase s.world (settled_of_all a v.phase n s.tasks all v.task)
            v.account;
    })
    | inr some_left ↦ rw some_left v
  ]

  step-Inv : (s : System) (move : Move) → Inv c n a s → Inv c n a (step c s move)
  step-Inv s redelivered v = restart-Inv s v
  step-Inv s (goes_on m weather) v = elim (Bool-cases (m == n)) [
    | inl same ↦
        subst (λ x. Inv c n a (step c s (goes_on x weather))) (ground (arith, same))
          (own-Inv s weather v)
    | inr differs ↦ other-Inv s m weather differs v
  ]

  pub run-Inv : (s : System) (moves : List Move) → Inv c n a s → Inv c n a (run c s moves)
  unfolding run
  run-Inv s [] v = v
  run-Inv s (move ∷ moves) v = run-Inv (step c s move) moves (step-Inv s move v)

settled_fulfilled :
    (q : Phase) → is_settled q ≡ true → is_rejected q ≡ false → is_fulfilled q ≡ true
settled_fulfilled fulfilled s r = refl
settled_fulfilled (rejected error) s r = cc
settled_fulfilled checking s r = cc
settled_fulfilled sending s r = cc
settled_fulfilled (recording id) s r = cc
settled_fulfilled (noting_error error) s r = cc

-- Before `processBatch` has run for the recipient at a position of `to`, which the server takes for no
-- other recipient of the batch: no other entry is the same address, or one that the collation equates.
pub record IsFresh (c : Campaign) (n : ℕ) (a : String) (s : System) : Type 0 where
  pub waiting : task_at n s.tasks ≡ some (a, checking)
  pub alone : count_if (is_same c a) (recipients s.tasks) ≡ 1
  pub no_row : rows c a s.world ≡ 0
  pub none_accepted : accepted_mails c a s.world ≡ 0
  pub no_line : critical_lines c a s.world ≡ 0

fresh-Inv : (c : Campaign) (n : ℕ) (a : String) (s : System) → IsFresh c n a s → Inv c n a s
fresh-Inv c n a s f = record {
  phase = checking;
  task = f.waiting;
  alone = ground (arith, f.alone);
  account = ground (arith, f.no_row, f.none_accepted, f.no_line);
}

module _ (c : Campaign) (n : ℕ) (a : String) (s : System) (moves : List Move)
    (named : str_eq a "" ≡ false) (fresh : IsFresh c n a s) where
  -- For a recipient (non-empty, and fresh: no row, accepted mail or CRITICAL line for it yet) whose
  -- address is listed once in the batch up to the collation of the database: however the tasks of the
  -- recipients interleave, whatever SES and the database answer, and however often the queue message
  -- is delivered again after all tasks have settled, SES accepts at most one mail more for it than
  -- there are CRITICAL log lines about it, and there is at most one row for it. Mails, lines and rows
  -- are counted up to the collation as well.
  pub accepted_at_most_once :
      (accepted_mails c a (run c s moves).world ≤ 1 + critical_lines c a (run c s moves).world)
      × (rows c a (run c s moves).world ≤ 1)
  accepted_at_most_once =
      let v = run-Inv c n a named s moves (fresh-Inv c n a s fresh) in by_phase v.phase v.account
    where
      by_phase :
          (p : Phase)
          → Account c a p (run c s moves).world
          → (accepted_mails c a (run c s moves).world
              ≤ 1 + critical_lines c a (run c s moves).world)
            × (rows c a (run c s moves).world ≤ 1)
      by_phase p v = ground (arith, v.balance, v.at_most_one, v.unrecorded)

  -- When every task has settled and none was rejected, so that `processBatch` returns and the queue
  -- message is acknowledged, a recipient that was fresh at the start, is non-empty and is listed once
  -- up to the collation of the database has exactly one row, and SES has accepted exactly one mail for
  -- it besides those in CRITICAL log lines.
  pub acknowledged_sent :
      all_settled (run c s moves).tasks ≡ true
      → batch_result (run c s moves).tasks ≡ completed
      → (rows c a (run c s moves).world ≡ 1)
        × (accepted_mails c a (run c s moves).world ≡ 1 + critical_lines c a (run c s moves).world)
  unfolding batch_result
  acknowledged_sent all no_failure =
      let v = run-Inv c n a named s moves (fresh-Inv c n a s fresh) in
      by_phase v.phase v.account (
        settled_fulfilled v.phase (settled_of_all a v.phase n (run c s moves).tasks all v.task)
          (not_rejected a v.phase n (run c s moves).tasks (ground (arith, no_failure)) v.task))
    where
      by_phase :
          (p : Phase)
          → Account c a p (run c s moves).world
          → is_fulfilled p ≡ true
          → (rows c a (run c s moves).world ≡ 1)
            × (accepted_mails c a (run c s moves).world
                ≡ 1 + critical_lines c a (run c s moves).world)
      by_phase p v f = ground (arith, v.balance, v.recorded f)

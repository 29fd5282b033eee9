-- ===== src/Registry/Examples.antt =====
-- Runs of lib/core/worker-registry.ts.
use mailgun_ses_proxy.Base.{◌≡◌, refl, false, List, [], ◌∷◌, some, arith}
use mailgun_ses_proxy.Base.Dict.{get}
use mailgun_ses_proxy.Base.Number.{nat}
use mailgun_ses_proxy.ErrorClass.{error, value, codes, error_class}
use mailgun_ses_proxy.ErrorClass.Laws.{IsShort, error_class-IsShort}
use mailgun_ses_proxy.Registry.{
  StoredWorker, Registry, Op, registers, acts, begins, finishes, dies, run, begin_worker_processing,
  fresh_worker, is_stale,
}
use mailgun_ses_proxy.Registry.Entries.{IsValid, run-IsValid, empty-IsValid}
use mailgun_ses_proxy.Registry.Staleness.{busy_not_stale}

error_class-IsShort_example : IsShort (codes (error_class (error "AbortError")))
error_class-IsShort_example = error_class-IsShort (error "AbortError")

hostile_name : error_class (error "secret@example.com") ≡ "Error"
unfolding error_class
hostile_name = refl

run-IsValid_example : IsValid (
    run [] (
      registers "newsletter-events" 5
      ∷ acts "newsletter-events" (begins 10 (nat 120000))
      ∷ acts "newsletter-events" finishes
      ∷ []))
run-IsValid_example = run-IsValid _ [] empty-IsValid

abbrev one_worker : Registry
one_worker = ("newsletter-events", fresh_worker "newsletter-events" 5) ∷ []

-- A second poller's batch begins and ends, another worker dies, and the first batch is still in flight.
abbrev meanwhile : List Op
meanwhile =
    acts "newsletter-events" (begins 20 (nat 120000))
    ∷ acts "system-events" (dies value)
    ∷ acts "newsletter-events" finishes
    ∷ []

busy_not_stale_example :
    (after : StoredWorker) × (get "newsletter-events"
        (run (begin_worker_processing "newsletter-events" (nat 120000) 10 one_worker) meanwhile)
      ≡ some after)
    × (is_stale 60000 120000 after ≡ false)
unfolding get
busy_not_stale_example =
    busy_not_stale "newsletter-events" one_worker (fresh_worker "newsletter-events" 5) meanwhile
      (begins 20 (nat 120000) ∷ finishes ∷ []) 10 120000 60000 (nat 120000) refl refl refl
      (omega arith)

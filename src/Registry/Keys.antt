-- ===== src/Registry/Keys.antt =====
-- The registry of lib/core/worker-registry.ts as a `Map`: one entry for each name, stored under it.
use mailgun_ses_proxy.Base.{String, ◌≡◌, ◌∙◌, List, [], ◌∷◌, eq_iff, All}
use mailgun_ses_proxy.Base.Names.{Distinct}
use mailgun_ses_proxy.Base.Dict.{modify, keys, Distinct-put, put-All, modify-Distinct, modify-All}
use mailgun_ses_proxy.Registry.{
  StoredWorker, Registry, Event, beats, begins, finishes, tallies, samples, sampling_fails, dies,
  Op, registers, acts, act, apply, run, fresh_worker, mark_worker_dead,
}
use mailgun_ses_proxy.ErrorClass.{Thrown}
use mailgun_ses_proxy.Registry.Entries.{act-name}

abbrev pub Named : String × StoredWorker → Type 0
Named (k, entry) = entry.name ≡ k

pub record IsIndexed (r : Registry) : Type 0 where
  pub distinct : Distinct (keys r)
  pub named : All Named r

module _ (name : String) (ev : Event) (r : Registry) (v : IsIndexed r) where
  modify-IsIndexed : IsIndexed (modify name (act ev) r)
  modify-IsIndexed = record {
    distinct = modify-Distinct name (act ev) r v.distinct;
    named = modify-All Named name (act ev) r (λ k entry h. act-name ev entry ∙ h) v.named;
  }

apply-IsIndexed : (op : Op) (r : Registry) → IsIndexed r → IsIndexed (apply r op)
unfolding apply
apply-IsIndexed (registers name now) r v = record {
  distinct = Distinct-put name (fresh_worker name now) r v.distinct;
  named = put-All Named name (fresh_worker name now) r (λ j e. (eq_iff name j).0 e) v.named;
}
apply-IsIndexed (acts name (beats now)) r v = modify-IsIndexed name (beats now) r v
apply-IsIndexed (acts name (begins now deadline_ms)) r v =
    modify-IsIndexed name (begins now deadline_ms) r v
apply-IsIndexed (acts name finishes) r v = modify-IsIndexed name finishes r v
apply-IsIndexed (acts name (tallies now update)) r v =
    modify-IsIndexed name (tallies now update) r v
apply-IsIndexed (acts name (samples queue)) r v = modify-IsIndexed name (samples queue) r v
apply-IsIndexed (acts name (sampling_fails thrown)) r v =
    modify-IsIndexed name (sampling_fails thrown) r v
apply-IsIndexed (acts name (dies thrown)) r v = modify-IsIndexed name (dies thrown) r v

pub run-IsIndexed : (ops : List Op) (r : Registry) → IsIndexed r → IsIndexed (run r ops)
unfolding run
run-IsIndexed [] r v = v
run-IsIndexed (op ∷ ops) r v = run-IsIndexed ops (apply r op) (apply-IsIndexed op r v)

pub marked-IsIndexed :
    (name : String) (thrown : Thrown) (r : Registry)
    → IsIndexed r
    → IsIndexed (mark_worker_dead name thrown r)
unfolding mark_worker_dead
marked-IsIndexed name thrown r v = modify-IsIndexed name (dies thrown) r v

-- ===== src/Registry/Liveness.antt =====
-- When a worker of lib/core/worker-registry.ts counts as alive.
use mailgun_ses_proxy.Base.{
  String, ◌≡◌, refl, Bool, true, false, not, Option, none, some, List, [], ◌∷◌, if◌then◌else◌,
  arith, str_eq, eq_refl, Bool-cases, inl, inr,
}
use mailgun_ses_proxy.Base.Dict.{get, map_found, get-modify}
use mailgun_ses_proxy.Registry.{
  StoredWorker, Registry, Event, beats, begins, finishes, tallies, samples, sampling_fails, dies,
  Op, registers, acts, act, run, fresh_worker, kill, mark_worker_dead,
}
use mailgun_ses_proxy.Registry.Entries.{get-acts, get-registers}
use mailgun_ses_proxy.ErrorClass.{Thrown}

-- Not registered, or not alive.
abbrev pub is_down : Option StoredWorker → Bool
is_down none = true
is_down (some entry) = not entry.alive

abbrev pub is_beat : Event → Bool
is_beat (beats now) = true
is_beat _ = false

-- No heartbeat of the worker.
abbrev pub is_silent : String → List Op → Bool
is_silent name [] = true
is_silent name (registers other now ∷ ops) = is_silent name ops
is_silent name (acts other ev ∷ ops) =
    if str_eq other name
    then (if is_beat ev then false else is_silent name ops)
    else is_silent name ops

act-is_down :
    (ev : Event) (o : Option StoredWorker)
    → is_beat ev ≡ false
    → is_down o ≡ true
    → is_down (map_found (act ev) o) ≡ true
act-is_down ev none b h = refl
act-is_down (beats now) (some entry) b h = cc
act-is_down (begins now deadline_ms) (some entry) b h = h
act-is_down finishes (some entry) b h = ground arith
act-is_down (tallies now update) (some entry) b h = h
act-is_down (samples queue) (some entry) b h = h
act-is_down (sampling_fails thrown) (some entry) b h = h
act-is_down (dies thrown) (some entry) b h = refl

-- A worker that is down stays down until its next heartbeat.
pub run-is_down :
    (name : String) (ops : List Op) (r : Registry)
    → is_silent name ops ≡ true
    → is_down (get name r) ≡ true
    → is_down (get name (run r ops)) ≡ true
unfolding run
run-is_down name [] r s h = h
run-is_down name (registers other now ∷ ops) r s h =
    run-is_down name ops _ s (rw (get-registers name other now r) (by_test (str_eq other name)))
  where
    by_test : (b : Bool) → is_down (if b then some (fresh_worker other now) else get name r) ≡ true
    by_test true = refl
    by_test false = h
run-is_down name (acts other ev ∷ ops) r s h = elim (Bool-cases (str_eq other name)) [
  | inl same ↦
      run-is_down name ops _ (ground (arith, same))
        (rw (get-acts name other ev r, same) (act-is_down ev (get name r) (ground (arith, same)) h))
  | inr differs ↦
      run-is_down name ops _ (ground (arith, differs)) (rw (get-acts name other ev r, differs) h)
]

pub marked-is_down :
    (name : String) (thrown : Thrown) (r : Registry)
    → is_down (get name (mark_worker_dead name thrown r)) ≡ true
unfolding mark_worker_dead
marked-is_down name thrown r =
    rw (get-modify name name (kill thrown) r, eq_refl name) (by_found (get name r))
  where
    by_found : (o : Option StoredWorker) → is_down (map_found (kill thrown) o) ≡ true
    by_found none = refl
    by_found (some entry) = refl

-- ===== src/Registry/Staleness.antt =====
-- Staleness, the heart of lib/core/worker-registry.ts: a loop that is busy is not taken for dead.
use mailgun_ses_proxy.Base.{
  ℕ, ◌+◌, ◌-◌, ◌<◌, String, ◌≡◌, refl, sym, ◌∙◌, Bool, true, false, ◌&&◌, Option, none, some, List,
  [], ◌∷◌, ltb, if◌then◌else◌, arith, eq_refl, str_eq, Bool-cases, inl, inr,
}
use mathlib.Core.Path.{subst}
use mailgun_ses_proxy.Base.Number.{Number}
use mailgun_ses_proxy.Base.Dict.{get, get-modify}
use mailgun_ses_proxy.Registry.{
  Op, registers, acts, run, StoredWorker, Registry, Event, beats, begins, finishes, tallies,
  samples, sampling_fails, dies, act, begin, finish, begin_worker_processing,
  bounded_processing_deadline, is_stale, at_least,
}
use mailgun_ses_proxy.Registry.Entries.{get-acts, get-registers}

abbrev pub acts_on : StoredWorker → List Event → StoredWorker
acts_on entry [] = entry
acts_on entry (ev ∷ evs) = acts_on (act ev entry) evs

-- With `n` batches in flight, the events leave at least one in flight all along.
abbrev pub stays_busy : ℕ → List Event → Bool
stays_busy n [] = ltb 0 n
stays_busy n (begins now deadline_ms ∷ evs) = stays_busy (n + 1) evs
stays_busy n (finishes ∷ evs) = ltb 1 n && stays_busy (n - 1) evs
stays_busy n (_ ∷ evs) = stays_busy n evs

-- The deadline is `d` or later.
abbrev pub Until : ℕ → StoredWorker → Type 0
Until d entry =
    (0 < entry.processing_count)
    × (entry.processing ≡ true)
    × ((now : ℕ) → now < d → at_least entry.processing_deadline_at now ≡ false)

stays_busy-Until :
    (d : ℕ) (evs : List Event) (entry : StoredWorker)
    → Until d entry
    → stays_busy entry.processing_count evs ≡ true
    → Until d (acts_on entry evs)
stays_busy-Until d [] entry u h = u
stays_busy-Until d (beats now ∷ evs) entry u h = stays_busy-Until d evs _ u h
stays_busy-Until d (begins now deadline_ms ∷ evs) entry u h =
    stays_busy-Until d evs _ (omega arith, refl, λ now' lt. later now' (u.2 now' lt)) h
  where
    later :
        (now' : ℕ)
        → at_least entry.processing_deadline_at now' ≡ false
        → at_least (begin now deadline_ms entry).processing_deadline_at now' ≡ false
    later now' e = ground arith
stays_busy-Until d (finishes ∷ evs) entry u h =
    subst (λ e. Until d (acts_on e evs)) (sym still)
      (stays_busy-Until d evs (record entry { processing_count = entry.processing_count - 1 })
        (ground (arith, h), u.1, u.2) (ground (arith, h)))
  where
    still : finish entry ≡ record entry { processing_count = entry.processing_count - 1 }
    still = ground (arith, h)
stays_busy-Until d (tallies now update ∷ evs) entry u h = stays_busy-Until d evs _ u h
stays_busy-Until d (samples queue ∷ evs) entry u h = stays_busy-Until d evs _ u h
stays_busy-Until d (sampling_fails thrown ∷ evs) entry u h = stays_busy-Until d evs _ u h
stays_busy-Until d (dies thrown ∷ evs) entry u h = stays_busy-Until d evs _ u h

Until-not_stale :
    (d threshold now : ℕ) (entry : StoredWorker)
    → Until d entry
    → now < d
    → is_stale threshold now entry ≡ false
Until-not_stale d threshold now entry u lt = ground (arith, u.1, u.2 now lt)

busy_entry_not_stale :
    (entry : StoredWorker) (evs : List Event) (received_at now threshold : ℕ) (deadline_ms : Number)
    → stays_busy (entry.processing_count + 1) evs ≡ true
    → now < received_at + bounded_processing_deadline deadline_ms
    → is_stale threshold now (acts_on (begin received_at deadline_ms entry) evs) ≡ false
busy_entry_not_stale entry evs received_at now threshold deadline_ms h lt =
    Until-not_stale (received_at + bounded_processing_deadline deadline_ms) threshold now
      (acts_on (begin received_at deadline_ms entry) evs)
      (stays_busy-Until (received_at + bounded_processing_deadline deadline_ms) evs
        (begin received_at deadline_ms entry) (omega arith, refl, λ now' lt'. ground arith) h)
      lt

abbrev cons_to : Event → Option (List Event) → Option (List Event)
cons_to ev none = none
cons_to ev (some evs) = some (ev ∷ evs)

-- What a history does to one worker: its events, unless it is registered again.
abbrev pub events_of : String → List Op → Option (List Event)
events_of name [] = some []
events_of name (registers other now ∷ ops) = if str_eq other name then none else events_of name ops
events_of name (acts other ev ∷ ops) =
    if str_eq other name then cons_to ev (events_of name ops) else events_of name ops

cons_to-eq-some :
    (ev : Event) (o : Option (List Event)) (evs : List Event)
    → cons_to ev o ≡ some evs
    → (rest : List Event) × (o ≡ some rest) × (evs ≡ ev ∷ rest)
cons_to-eq-some ev none evs e = absurd (wrong e)
  where
    wrong : none ≡ some evs → ⊥
    wrong e = cc
cons_to-eq-some ev (some rest) evs e = (rest, refl, ground arith)

get-run :
    (name : String) (ops : List Op) (r : Registry) (entry : StoredWorker) (evs : List Event)
    → get name r ≡ some entry
    → events_of name ops ≡ some evs
    → get name (run r ops) ≡ some (acts_on entry evs)
unfolding run
get-run name [] r entry [] h e = h
get-run name [] r entry (ev ∷ evs) h e = absurd (wrong e)
  where
    wrong : some [] ≡ some (ev ∷ evs) → ⊥
    wrong e = cc
get-run name (registers other now ∷ ops) r entry evs h e = elim (Bool-cases (str_eq other name)) [
  | inl same ↦ ground (arith, same)
  | inr differs ↦
      get-run name ops _ entry evs (get-registers name other now r ∙ ground (arith, differs))
        (ground (arith, differs))
]
get-run name (acts other ev ∷ ops) r entry evs h e = elim (Bool-cases (str_eq other name)) [
  | inl same ↦
      let (rest, found, split) =
        cons_to-eq-some ev (events_of name ops) evs (ground (arith, same)) in
      rw split (
        get-run name ops _ (act ev entry) rest (get-acts name other ev r ∙ rw (same, h) refl) found)
  | inr differs ↦
      get-run name ops _ entry evs (get-acts name other ev r ∙ ground (arith, differs))
        (ground (arith, differs))
]

-- From the moment at which a worker's batch is received, and for as long as a batch of that worker
-- stays in flight, the worker is not stale before that batch's deadline, whatever else is recorded
-- meanwhile by its other pollers, by telemetry and for other workers, and however old its last
-- heartbeat is, provided that it is not registered again.
pub busy_not_stale :
    (name : String) (r : Registry) (entry : StoredWorker) (ops : List Op) (evs : List Event)
    (received_at now threshold : ℕ) (deadline_ms : Number)
    → get name r ≡ some entry
    → events_of name ops ≡ some evs
    → stays_busy (entry.processing_count + 1) evs ≡ true
    → now < received_at + bounded_processing_deadline deadline_ms
    → (after : StoredWorker) × (get name
          (run (begin_worker_processing name deadline_ms received_at r) ops)
        ≡ some after)
      × (is_stale threshold now after ≡ false)
unfolding begin_worker_processing
busy_not_stale name r entry ops evs received_at now threshold deadline_ms found only busy lt = (
  acts_on (begin received_at deadline_ms entry) evs,
  get-run name ops _ (begin received_at deadline_ms entry) evs
      (get-modify name name (begin received_at deadline_ms) r ∙ rw (eq_refl name, found) refl) only,
  busy_entry_not_stale entry evs received_at now threshold deadline_ms busy lt,
)

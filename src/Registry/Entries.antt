-- ===== src/Registry/Entries.antt =====
-- What the entries of lib/core/worker-registry.ts keep, whatever operations are applied.
use mailgun_ses_proxy.Base.{
  ℕ, String, ◌≡◌, refl, sym, ◌∙◌, Bool, true, false, Option, none, some, List, [], ◌∷◌, ltb,
  if◌then◌else◌, arith, eq_iff, str_eq,
}
use mathlib.Core.Path.{subst}
use mailgun_ses_proxy.Base.Dict.{get, get-put, get-modify, map_found}
use mailgun_ses_proxy.Registry.{
  StoredWorker, Registry, Event, beats, begins, finishes, tallies, samples, sampling_fails, dies,
  Op, registers, acts, act, apply, run, fresh_worker,
}

abbrev pub is_some {ℓ} : {A : Type ℓ} → Option A → Bool
is_some none = false
is_some (some a) = true

-- The fields about batches in flight agree.
pub record IsConsistent (entry : StoredWorker) : Type 0 where
  pub busy : entry.processing ≡ ltb 0 entry.processing_count
  pub started : is_some entry.processing_started_at ≡ entry.processing
  pub bounded : is_some entry.processing_deadline_at ≡ entry.processing

pub act-IsConsistent :
    (ev : Event) (entry : StoredWorker) → IsConsistent entry → IsConsistent (act ev entry)
act-IsConsistent (beats now) entry v = ground arith
act-IsConsistent (begins now deadline_ms) entry v = ground arith
act-IsConsistent finishes entry v = ground arith
act-IsConsistent (tallies now update) entry v = record {
  busy = v.busy;
  started = v.started;
  bounded = v.bounded;
}
act-IsConsistent (samples queue) entry v = record {
  busy = v.busy;
  started = v.started;
  bounded = v.bounded;
}
act-IsConsistent (sampling_fails thrown) entry v = ground arith
act-IsConsistent (dies thrown) entry v = ground arith

pub act-name : (ev : Event) (entry : StoredWorker) → (act ev entry).name ≡ entry.name
act-name (beats now) entry = refl
act-name (begins now deadline_ms) entry = refl
act-name finishes entry = ground arith
act-name (tallies now update) entry = refl
act-name (samples queue) entry = refl
act-name (sampling_fails thrown) entry = refl
act-name (dies thrown) entry = refl

-- An operation changes the entry under its own name alone, and only a registration makes one.
pub get-acts :
    (k name : String) (ev : Event) (r : Registry)
    → get k (apply r (acts name ev))
      ≡ (if str_eq name k then map_found (act ev) (get k r) else get k r)
unfolding apply
get-acts k name (beats now) r = get-modify name k _ r
get-acts k name (begins now deadline_ms) r = get-modify name k _ r
get-acts k name finishes r = get-modify name k _ r
get-acts k name (tallies now update) r = get-modify name k _ r
get-acts k name (samples queue) r = get-modify name k _ r
get-acts k name (sampling_fails thrown) r = get-modify name k _ r
get-acts k name (dies thrown) r = get-modify name k _ r

pub get-registers :
    (k name : String) (now : ℕ) (r : Registry)
    → get k (apply r (registers name now))
      ≡ (if str_eq name k then some (fresh_worker name now) else get k r)
unfolding apply
get-registers k name now r = get-put name k (fresh_worker name now) r

pub record IsValid (r : Registry) : Type 0 where
  pub entry_at :
      (k : String) (entry : StoredWorker)
      → get k r ≡ some entry
      → IsConsistent entry × (entry.name ≡ k)

fresh-IsConsistent : (name : String) (now : ℕ) → IsConsistent (fresh_worker name now)
fresh-IsConsistent name now = ground arith

module _ (P : StoredWorker → Type 0) (entry : StoredWorker) where
  if_some :
      (b : Bool) (x y : Option StoredWorker)
      → (if b then x else y) ≡ some entry
      → (b ≡ true → x ≡ some entry → P entry)
      → (y ≡ some entry → P entry)
      → P entry
  if_some true x y e f g = f refl e
  if_some false x y e f g = g e

  some_to : (found : StoredWorker) → some found ≡ some entry → P found → P entry
  some_to found e h = let same : found ≡ entry = cc in subst P same h

  map_found_some :
      (f : StoredWorker → StoredWorker) (o : Option StoredWorker)
      → map_found f o ≡ some entry
      → ((found : StoredWorker) → o ≡ some found → P (f found))
      → P entry
  map_found_some f none e h = absurd (none-ne-some e)
    where
      none-ne-some : none ≡ some entry → ⊥
      none-ne-some e = cc
  map_found_some f (some found) e h = some_to (f found) e (h found refl)

apply-IsValid : (op : Op) (r : Registry) → IsValid r → IsValid (apply r op)
apply-IsValid (registers name now) r v = record {
  entry_at = λ k entry e.
      if_some (λ x. IsConsistent x × (x.name ≡ k)) entry (str_eq name k) _ (get k r)
        (sym (get-registers k name now r) ∙ e)
        (λ same found.
          some_to (λ x. IsConsistent x × (x.name ≡ k)) entry (fresh_worker name now) found
            (fresh-IsConsistent name now, (eq_iff name k).0 same))
        (v.entry_at k entry);
}
apply-IsValid (acts name ev) r v = record {
  entry_at = λ k entry e.
      if_some (λ x. IsConsistent x × (x.name ≡ k)) entry (str_eq name k) _ (get k r)
        (sym (get-acts k name ev r) ∙ e)
        (λ _ found.
          map_found_some (λ x. IsConsistent x × (x.name ≡ k)) entry (act ev) (get k r) found
            (λ x here. (
              act-IsConsistent ev x (v.entry_at k x here).0,
              act-name ev x ∙ (v.entry_at k x here).1,
            )))
        (v.entry_at k entry);
}

-- After any history of operations, started from a valid registry, every entry is stored under its
-- own name, is marked `processing` exactly while its count of batches in flight is positive, and has
-- a start and a deadline of processing exactly then.
pub run-IsValid : (ops : List Op) (r : Registry) → IsValid r → IsValid (run r ops)
unfolding run
run-IsValid [] r v = v
run-IsValid (op ∷ ops) r v = run-IsValid ops (apply r op) (apply-IsValid op r v)

pub empty-IsValid : IsValid []
unfolding get
empty-IsValid = record { entry_at = λ k entry e. absurd (none-ne-some entry e) }
  where
    none-ne-some : (entry : StoredWorker) → none ≡ some entry → ⊥
    none-ne-some entry e = cc

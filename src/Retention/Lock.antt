-- ===== src/Retention/Lock.antt =====
-- The process-local lock of service/newsletter-retention-plan.ts. A symbol is a number: each lock
-- object has a token of its own.
use mailgun_ses_proxy.Base.{
  ℕ, ◌≡◌, refl, sym, ap, ◌∙◌, String, Bool, true, false, Option, none, some, List, [], ◌∷◌, ◌==◌,
  str_eq, eq_iff, eq_refl, All, if◌then◌else◌, arith, Bool-cases, inl, inr,
}
use Prim.Native.String.{◌++◌ as concat}
use mailgun_ses_proxy.Base.Dict.{Dict, get, put, delete, get-put, get-delete}
use mailgun_ses_proxy.Base.Attempt.{Attempt, returned, threw, throw_if, ◌>>◌}

pub record Lock : Type 0 where
  pub name : String
  pub token : ℕ

abbrev pub Held : Type 0
Held = Dict ℕ

unfoldable pub create_process_local_anti_overlap_lock : String → (token : ℕ) → Attempt Lock
create_process_local_anti_overlap_lock name token = do
  throw_if (str_eq name "") "lock name must be a non-empty string"
  returned (record { name = name; token = token })

abbrev pub owned_by : ℕ → Option ℕ → Bool
owned_by token none = false
owned_by token (some other) = other == token

abbrev acquire_free : Lock → Held → Option ℕ → Bool × Held
acquire_free lock held (some other) = (false, held)
acquire_free lock held none = (true, put lock.name lock.token held)

unfoldable pub try_acquire : Lock → Held → Bool × Held
try_acquire lock held = acquire_free lock held (get lock.name held)

unfoldable pub release : Lock → Held → Bool × Held
release lock held =
    if owned_by lock.token (get lock.name held)
    then (true, delete lock.name held)
    else (false, held)

unfoldable pub is_held : Lock → Held → Bool
is_held lock held = owned_by lock.token (get lock.name held)

-- `work` may run other holders' code before it settles, so that it takes the held locks along.
abbrev released : {A : Type 0} → Lock → Attempt A × Held → Attempt A × Held
released lock (result, held) = (result, (release lock held).1)

unfoldable pub with_process_local_anti_overlap_lock :
    {A : Type 0} → Lock → (Held → Attempt A × Held) → Held → Attempt A × Held
with_process_local_anti_overlap_lock lock work held =
    let (acquired, locked) = try_acquire lock held in
    let done = released lock (work locked) in
    if acquired
    then done
    else (threw (concat "anti-overlap lock \"" (concat lock.name "\" is already held")), held)

-- What the holders of locks do, one after the other.
pub data LockEvent : Type 0 where
  acquires releases : Lock → LockEvent

abbrev pub lock_step : LockEvent → Held → Held
lock_step (acquires lock) held = (try_acquire lock held).1
lock_step (releases lock) held = (release lock held).1

unfoldable pub run_locks : List LockEvent → Held → Held
run_locks [] held = held
run_locks (event ∷ events) held = run_locks events (lock_step event held)

-- Any event but a release with the token itself.
abbrev pub Foreign : ℕ → LockEvent → Type 0
Foreign token (acquires lock) = Unit
Foreign token (releases lock) = (lock.token == token) ≡ false

module _ (name : String) (token : ℕ) where
  step-stays :
      (event : LockEvent) (held : Held)
      → Foreign token event
      → get name held ≡ some token
      → get name (lock_step event held) ≡ some token
  unfolding try_acquire release
  step-stays (acquires lock) held foreign e = by_entry (get lock.name held) refl
    where
      by_entry :
          (o : Option ℕ)
          → get lock.name held ≡ o
          → get name ((acquire_free lock held o).1) ≡ some token
      by_entry (some other) there = e
      by_entry none free = elim (Bool-cases (str_eq lock.name name)) [
        | inl same ↦
            let same_name : lock.name ≡ name = (eq_iff lock.name name).0 same in
            let clash : get name held ≡ none = ap (λ z. get z held) (sym same_name) ∙ free in cc
        | inr differs ↦ get-put lock.name name lock.token held ∙ rw differs e
      ]
  step-stays (releases lock) held foreign e =
      by_owner (owned_by lock.token (get lock.name held)) refl
    where
      clash : owned_by lock.token (some token) ≡ true → ⊥
      clash own = ground (arith, own, foreign)

      by_owner :
          (b : Bool)
          → owned_by lock.token (get lock.name held) ≡ b
          → get name
              ((if◌then◌else◌ {A = Bool × Held} b (true, delete lock.name held) (false, held)).1)
            ≡ some token
      by_owner false e1 = e
      by_owner true owned = elim (Bool-cases (str_eq lock.name name)) [
        | inl same ↦
            let same_name : lock.name ≡ name = (eq_iff lock.name name).0 same in
            let found : get lock.name held ≡ some token = ap (λ z. get z held) same_name ∙ e in
            let own : owned_by lock.token (some token) ≡ true =
              sym (ap (owned_by lock.token) found) ∙ owned in
            absurd (clash own)
        | inr differs ↦ get-delete lock.name name held ∙ rw differs e
      ]

  run-stays :
      (events : List LockEvent) (held : Held)
      → All (Foreign token) events
      → get name held ≡ some token
      → get name (run_locks events held) ≡ some token
  unfolding run_locks
  run-stays [] held foreign e = e
  run-stays (event ∷ events) held foreign e =
      run-stays events _ foreign.1 (step-stays event held foreign.0 e)

acquire_free_lem :
    (lock : Lock) (held : Held) (o : Option ℕ)
    → get lock.name held ≡ o
    → (acquire_free lock held o).0 ≡ true
    → get lock.name ((acquire_free lock held o).1) ≡ some lock.token
acquire_free_lem lock held none free e =
    get-put lock.name lock.name lock.token held ∙ rw (eq_refl lock.name) refl
acquire_free_lem lock held (some other) taken e = cc

-- Once a lock object has acquired its name, then whatever other holders do, and as long as it does not
-- release itself, it holds it, and no object of the same name, with whatever token, can acquire it.
pub lock_exclusive :
    (lock : Lock) (other_token : ℕ) (events : List LockEvent) (held : Held)
    → (try_acquire lock held).0 ≡ true
    → All (Foreign lock.token) events
    → let after = run_locks events ((try_acquire lock held).1) in
      (is_held lock after ≡ true)
      × (try_acquire (record { name = lock.name; token = other_token }) after ≡ (false, after))
unfolding try_acquire is_held
lock_exclusive lock other_token events held acquired foreign =
    let after = run_locks events ((try_acquire lock held).1) in
    let found : get lock.name after ≡ some lock.token =
      run-stays lock.name lock.token events _ foreign
        (acquire_free_lem lock held (get lock.name held) refl acquired) in
    (rw found (ground arith), rw found refl)

-- With a name that is free, and work that leaves the lock alone, the result of the work is handed on,
-- whether it returns or throws, and the name is free again.
pub with_lock_releases :
    (lock : Lock) (work : Held → Attempt ℕ × Held) (held : Held)
    → get lock.name ((work (put lock.name lock.token held)).1) ≡ some lock.token
    → get lock.name held ≡ none
    → ((with_process_local_anti_overlap_lock lock work held).0
        ≡ (work (put lock.name lock.token held)).0)
      × (get lock.name ((with_process_local_anti_overlap_lock lock work held).1) ≡ none)
unfolding with_process_local_anti_overlap_lock try_acquire release
with_lock_releases lock work held kept free =
    let after = (work (put lock.name lock.token held)).1 in
    let own : owned_by lock.token (some lock.token) ≡ true = ground arith in
    rw free
      (refl, rw kept (rw own (get-delete lock.name lock.name after ∙ rw (eq_refl lock.name) refl)))

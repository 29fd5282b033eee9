-- ===== src/Health/Examples.antt =====
-- Runs of lib/core/health-status.ts.
use mailgun_ses_proxy.Base.{◌≡◌, refl, List, [], ◌∷◌, every, if◌then◌else◌}
use mailgun_ses_proxy.Base.Names.{has}
use mailgun_ses_proxy.Base.Dict.{get}
use mailgun_ses_proxy.Base.Number.{nan}
use mailgun_ses_proxy.ErrorClass.{value}
use mailgun_ses_proxy.Registry.{
  Registry, Op, registers, acts, beats, run, mark_worker_dead, fresh_worker,
}
use mailgun_ses_proxy.Registry.Keys.{IsIndexed}
use mailgun_ses_proxy.Health.{
  Env, build_health_snapshot, expected_worker_names, healthy, degraded, unhealthy,
}
use mailgun_ses_proxy.Health.Laws.{is_up_at, snapshot_ready, dead_worker_unhealthy}

abbrev unset : Env
unset name = nan

abbrev two_workers : Registry
two_workers =
    ("newsletter-sender", fresh_worker "newsletter-sender" 5)
    ∷ ("system-events", fresh_worker "system-events" 6)
    ∷ []

two_workers-IsIndexed : IsIndexed two_workers
unfolding has
two_workers-IsIndexed = record { distinct = (refl, (refl, tt)); named = (refl, (refl, tt)) }

snapshot_ready_example :
    ((build_health_snapshot unset 99 100 two_workers).ready
      ≡ every (λ name. is_up_at unset 100 (get name two_workers)) expected_worker_names)
    × ((build_health_snapshot unset 99 100 two_workers).http_status ≡ (
        if every (λ name. is_up_at unset 100 (get name two_workers)) expected_worker_names
        then 200
        else 503))
    × ((build_health_snapshot unset 99 100 two_workers).status ≡ (
        if every (λ name. is_up_at unset 100 (get name two_workers)) expected_worker_names
        then (if (build_health_snapshot unset 99 100 two_workers).degraded
            then degraded
            else healthy)
        else unhealthy))
snapshot_ready_example = snapshot_ready unset 100 two_workers two_workers-IsIndexed 99

abbrev others : List Op
others = acts "newsletter-sender" (beats 120) ∷ registers "newsletter-events" 130 ∷ []

dead_worker_unhealthy_example :
    ((build_health_snapshot unset 199 200
        (run (mark_worker_dead "system-events" value two_workers) others)).http_status
      ≡ 503)
    × ((build_health_snapshot unset 199 200
          (run (mark_worker_dead "system-events" value two_workers) others)).status
        ≡ unhealthy)
unfolding has
dead_worker_unhealthy_example =
    dead_worker_unhealthy unset 199 200 two_workers "system-events" value others
      two_workers-IsIndexed refl refl

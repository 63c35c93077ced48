-- ===== src/Startup/Failures.antt =====
-- What a failing start of cmd/worker/main.go reports.
use email_delivery_engine.Prelude.{
  ℕ, suc, ◌+◌, ◌≡◌, refl, inl, inr, Bool, Option, none, some, List, [], ◌∷◌, ◌==◌, if◌then◌else◌,
  Bool-cases,
}
use email_delivery_engine.Config.{Loaded, ready, refused, load}
use email_delivery_engine.Runtime.{Result, ok, err}
use email_delivery_engine.Runtime.Rules.{Result-cases}
use email_delivery_engine.Queue.{group_ready}
use email_delivery_engine.Startup.{
  Loop, consumer, deferred_poller, abuse_sweep, metrics_updater, LifecycleEvent, started,
  StartError, config_error, open_database_error, ping_database_error, parse_redis_url_error,
  ping_redis_error, group_error, Outside, serve, run_loaded, run, exit_for, main,
}

abbrev unless : Bool → StartError → Option StartError
unless works e = if works then none else some e

abbrev not_made : Result Unit → Option StartError
not_made (ok done) = none
not_made (err e) = some (group_error e)

abbrev first_of : List (Option StartError) → Option StartError
first_of [] = none
first_of (none ∷ rest) = first_of rest
first_of (some e ∷ rest) = some e

-- What is tested at the start, in this order.
abbrev pub first_failure : Outside → Loaded → Option StartError
first_failure o (refused e) = some (config_error e)
first_failure o (ready cfg) = first_of (
    unless (o.open_database cfg.database_url) open_database_error
    ∷ unless o.ping_database ping_database_error
    ∷ unless (o.parse_redis_url cfg.redis_url) parse_redis_url_error
    ∷ unless o.ping_redis ping_redis_error
    ∷ not_made (group_ready o.create_group)
    ∷ [])

abbrev index : Loop → ℕ
index consumer = 0
index deferred_poller = 1
index abuse_sweep = 2
index metrics_updater = 3

-- How often a loop is started.
abbrev pub starts : Loop → List LifecycleEvent → ℕ
starts l [] = 0
starts l (started k ∷ es) = if index k == index l then suc (starts l es) else starts l es
starts l (e ∷ es) = starts l es

abbrev runs : Option StartError → ℕ
runs none = 1
runs (some e) = 0

-- A run that reports this error, ends with a status that says so, and has started each loop once if
-- there is none and never otherwise.
abbrev Reports : Option StartError → Option StartError × List LifecycleEvent → Type 0
Reports failure steps =
    (steps.0 ≡ failure)
    × (exit_for steps.0 + runs failure ≡ 1)
    × ((l : Loop) → starts l steps.1 ≡ runs failure)

pub record StartOutcome (o : Outside) (failure : Option StartError) : Type 0 where
  pub reported : (run o).0 ≡ failure
  pub status : main o + runs failure ≡ 1
  pub loops : (l : Loop) → starts l (run o).1 ≡ runs failure

run_loaded-Reports : (o : Outside) (l : Loaded) → Reports (first_failure o l) (run_loaded o l)
run_loaded-Reports o (refused e) = (refl, refl, λ l. refl)
run_loaded-Reports o (ready cfg) = elim (Bool-cases (o.open_database cfg.database_url)) [
  | inr f ↦ rw f (refl, refl, λ l. refl)
  | inl t ↦ elim (Bool-cases o.ping_database) [
    | inr f ↦ rw (t, f) (refl, refl, λ l. refl)
    | inl u ↦ elim (Bool-cases (o.parse_redis_url cfg.redis_url)) [
      | inr f ↦ rw (t, u, f) (refl, refl, λ l. refl)
      | inl v ↦ elim (Bool-cases o.ping_redis) [
        | inr f ↦ rw (t, u, v, f) (refl, refl, λ l. refl)
        | inl x ↦ elim (Result-cases (group_ready o.create_group)) [
          | inl (done, g) ↦ rw (t, u, v, x, g) (refl, refl, each_once)
          | inr (e, g) ↦ rw (t, u, v, x, g) (refl, refl, λ l. refl)
        ]
      ]
    ]
  ]
]
  where
    each_once : (l : Loop) → starts l serve.1 ≡ 1
    each_once consumer = refl
    each_once deferred_poller = refl
    each_once abuse_sweep = refl
    each_once metrics_updater = refl

-- A process reports the first of its tests that fails, of the configuration, the database handle, the
-- database, the address of Redis, Redis and the consumer group, and ends with status 1 without having
-- started a loop. Where none fails it starts each of the four loops once and ends with status 0.
pub run-StartOutcome : (o : Outside) → StartOutcome o (first_failure o (load o.host))
unfolding run main
run-StartOutcome o =
    let (reported, status, loops) = run_loaded-Reports o (load o.host) in
    record { reported = reported; status = status; loops = loops }

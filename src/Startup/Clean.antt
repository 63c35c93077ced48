-- ===== src/Startup/Clean.antt =====
-- The shutdown of cmd/worker/main.go closes what the start has opened.
use email_delivery_engine.Prelude.{
  ℕ, ◌≡◌, refl, inl, inr, Bool, true, false, not, ◌&&◌, ◌||◌, Option, none, some, List, [], ◌∷◌,
  ◌==◌, if◌then◌else◌, Bool-cases,
}
use email_delivery_engine.Config.{Loaded, ready, refused, load}
use email_delivery_engine.Runtime.Rules.{Result-cases}
use email_delivery_engine.Queue.{group_ready}
use email_delivery_engine.Startup.{
  Resource, signals, database, queue, limiter, metrics_server, shutdown_timer, LifecycleEvent,
  waited, opened, closed, started, Outside, run_loaded, run,
}

-- What is open, and whether loops run.
pub record Held : Type 0 where
  pub resources : List Resource
  pub running : Bool

abbrev number : Resource → ℕ
number signals = 0
number database = 1
number queue = 2
number limiter = 3
number metrics_server = 4
number shutdown_timer = 5

abbrev pub holds : Resource → List Resource → Bool
holds r [] = false
holds r (x ∷ xs) = number r == number x || holds r xs

abbrev without : Resource → List Resource → List Resource
without r [] = []
without r (x ∷ xs) = let rest = without r xs in if number r == number x then rest else x ∷ rest

abbrev is_used_by_loops : Resource → Bool
is_used_by_loops signals = true
is_used_by_loops database = true
is_used_by_loops queue = true
is_used_by_loops limiter = true
is_used_by_loops _ = false

-- An event where it is in order: nothing is opened twice, only what is open is closed, loops start
-- with all that they use open, and nothing that they use is closed while they run.
abbrev pub after : LifecycleEvent → Held → Option Held
after (opened r) h =
    if holds r h.resources then none else some (record h { resources = r ∷ h.resources })
after (closed r) h =
    if not (holds r h.resources) || (h.running && is_used_by_loops r)
    then none
    else some (record h { resources = without r h.resources })
after (started l) h =
    if holds signals h.resources
      && holds database h.resources
      && holds queue h.resources
      && holds limiter h.resources
    then some (record h { running = true })
    else none
after waited h = some (record h { running = false })
after _ h = some h

abbrev from : List LifecycleEvent → Option Held → Option Held
from [] h = h
from (e ∷ es) none = none
from (e ∷ es) (some h) = from es (after e h)

abbrev pub holds_after : List LifecycleEvent → Option Held
holds_after events = from events (some (record { resources = []; running = false }))

abbrev pub leaked : Outside → Loaded → List Resource
leaked o (refused e) = []
leaked o (ready cfg) =
    if o.open_database cfg.database_url && not o.ping_database then database ∷ [] else []

abbrev pub Leaves : List LifecycleEvent → List Resource → Type 0
Leaves events left = holds_after events ≡ some (record { resources = left; running = false })

run_loaded-Leaves : (o : Outside) (l : Loaded) → Leaves (run_loaded o l).1 (leaked o l)
run_loaded-Leaves o (refused e) = refl
run_loaded-Leaves o (ready cfg) = elim (Bool-cases (o.open_database cfg.database_url)) [
  | inr f ↦ rw f refl
  | inl t ↦ elim (Bool-cases o.ping_database) [
    | inr f ↦ rw (t, f) refl
    | inl u ↦ elim (Bool-cases (o.parse_redis_url cfg.redis_url)) [
      | inr f ↦ rw (t, u, f) refl
      | inl v ↦ elim (Bool-cases o.ping_redis) [
        | inr f ↦ rw (t, u, v, f) refl
        | inl x ↦ elim (Result-cases (group_ready o.create_group)) [
          | inl (done, g) ↦ rw (t, u, v, x, g) refl
          | inr (e, g) ↦ rw (t, u, v, x, g) refl
        ]
      ]
    ]
  ]
]

-- Whatever fails, a process opens nothing twice, closes only what is open, starts its loops with all
-- that they use open, and closes none of it while they run; at its end nothing is open, save the
-- database handle where the first ping of the database fails.
pub run-Leaves : (o : Outside) → Leaves (run o).1 (leaked o (load o.host))
unfolding run
run-Leaves o = run_loaded-Leaves o (load o.host)

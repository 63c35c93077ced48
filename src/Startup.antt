-- ===== src/Startup.antt =====
-- `main` and `run` of data-plane/cmd/worker/main.go, with the constructors and `Close` methods of
-- store.Store, queue.Queue and throttle.Limiter: the order in which a worker process opens what it
-- uses, starts its loops and shuts down, as the list of these events. What the drivers, Redis and the
-- operating system answer is a parameter, `Outside`. A deferred call stands behind the events of the
-- rest of its function. `waited` is the return of wg.Wait; that the loops end is shown with them.
pub mod Clean
pub mod Failures
pub mod Server
use email_delivery_engine.Prelude.{
  ℕ, String, Bool, true, false, not, Option, none, some, List, [], ◌∷◌, ◌++◌, if◌then◌else◌,
}
use email_delivery_engine.Config.{Config, ConfigError, Host, Loaded, ready, refused, load}
use email_delivery_engine.Runtime.{Error, Result, ok, err}
use email_delivery_engine.Queue.{group_ready}

pub data Resource : Type 0 where
  signals database queue limiter metrics_server shutdown_timer : Resource

pub data Loop : Type 0 where
  consumer deferred_poller abuse_sweep metrics_updater : Loop

pub data LifecycleEvent : Type 0 where
  initialised received waited : LifecycleEvent
  opened closed : Resource → LifecycleEvent
  started : Loop → LifecycleEvent

pub data StartError : Type 0 where
  config_error : ConfigError → StartError
  open_database_error ping_database_error parse_redis_url_error ping_redis_error : StartError
  group_error : Error → StartError

-- The answers from outside: whether sql.Open and the pings work, which addresses redis.ParseURL
-- takes, and the text of the error of XGROUP CREATE, if it fails.
pub record Outside : Type 0 where
  pub host : Host
  pub open_database : String → Bool
  pub ping_database : Bool
  pub parse_redis_url : String → Bool
  pub ping_redis : Bool
  pub create_group : Option String

-- What a function returns, `none` where it returns no error, and the events of its run.
abbrev pub Steps : Type 0
Steps = Option StartError × List LifecycleEvent

-- `if err := first; err != nil { return err }`, then the rest.
abbrev pub and_then : Steps → Steps → Steps
and_then (some e, events) rest = (some e, events)
and_then (none, events) rest = (rest.0, events ++ rest.1)

abbrev pub deferring : LifecycleEvent → Steps → Steps
deferring e rest = (rest.0, rest.1 ++ (e ∷ []))

abbrev pub check : Bool → StartError → Steps
check works e = if works then (none, []) else (some e, [])

abbrev pub does : LifecycleEvent → Steps
does e = (none, e ∷ [])

abbrev pub group_made : Result Unit → Steps
group_made (ok done) = (none, [])
group_made (err e) = (some (group_error e), [])

-- The loops and the metrics server, up to the signal and behind it. The error of the server's
-- shutdown is only logged.
abbrev pub serve : Steps
serve = (
  none,
  started consumer
      ∷ started deferred_poller
      ∷ started abuse_sweep
      ∷ started metrics_updater
      ∷ opened metrics_server
      ∷ received
      ∷ opened shutdown_timer
      ∷ closed metrics_server
      ∷ waited
      ∷ closed shutdown_timer
      ∷ [],
)

abbrev pub exit_for : Option StartError → ℕ
exit_for none = 0
exit_for (some e) = 1

module _ (o : Outside) where
  -- store.New: a handle that does not answer a ping is not closed.
  abbrev pub store_new : String → Steps
  store_new url =
      and_then (check (o.open_database url) open_database_error)
        (and_then (does (opened database)) (check o.ping_database ping_database_error))

  -- queue.New
  abbrev pub queue_new : String → Steps
  queue_new url =
      and_then (check (o.parse_redis_url url) parse_redis_url_error) (does (opened queue))

  -- throttle.NewFromURL
  abbrev pub limiter_new : String → Steps
  limiter_new url =
      and_then (check (o.parse_redis_url url) parse_redis_url_error) (does (opened limiter))

  abbrev pub with_limiter : Config → Steps
  with_limiter cfg = and_then (limiter_new cfg.redis_url) (deferring (closed limiter) serve)

  abbrev pub with_queue : Config → Steps
  with_queue cfg = and_then (queue_new cfg.redis_url) (
      deferring (closed queue) (
        and_then (check o.ping_redis ping_redis_error)
          (and_then (group_made (group_ready o.create_group)) (with_limiter cfg))))

  abbrev pub with_store : Config → Steps
  with_store cfg =
      and_then (store_new cfg.database_url) (deferring (closed database) (with_queue cfg))

  abbrev pub run_loaded : Loaded → Steps
  run_loaded (refused e) = (some (config_error e), [])
  run_loaded (ready cfg) =
      and_then (does initialised)
        (and_then (does (opened signals)) (deferring (closed signals) (with_store cfg)))

  unfoldable pub run : Steps
  unfolding load
  run = run_loaded (load o.host)

  -- The exit status of the process.
  unfoldable pub main : ℕ
  unfolding run
  main = exit_for run.0

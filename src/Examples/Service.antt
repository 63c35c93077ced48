-- ===== src/Examples/Service.antt =====
-- The start and the loops of a worker, the metrics page and the deferred poll on the small
-- installation, and examples of their theorems.
use email_delivery_engine.Queue.{stream_commands}
use mathlib.Core.List.{Memᴰ}
use email_delivery_engine.Runtime.Interface.{acts}
use email_delivery_engine.Throttle.{commands}
use email_delivery_engine.Prelude.{
  ℕ, ◌+◌, String, ◌≡◌, refl, sym, subst, Bool, true, false, Option, none, some, List, [], ◌∷◌,
  arith, ltb, ◌==◌, not, ◌&&◌, if◌then◌else◌,
}
use email_delivery_engine.Prelude.Int.{pos}
use email_delivery_engine.Prelude.Text.{codes}
use email_delivery_engine.Store.{Status, Message, Database}
use email_delivery_engine.Store.Query.{message_by_id, deferred_ready}
use email_delivery_engine.Store.Ready.{Batch, deferred_ready-Batch}
use email_delivery_engine.Metrics.{
  Registry, init, init_from, put_entry, entry_of, add, inc, set_gauge,
}
use email_delivery_engine.Metrics.Counting.{Readings, registry-Readings}
use email_delivery_engine.Metrics.Page.{page, strip_zeros, scientific, format_g}
use email_delivery_engine.Metrics.Page.Scrape.{samples}
use email_delivery_engine.Metrics.Page.RoundTrip.{Lacks}
use email_delivery_engine.Metrics.Page.Samples.{IsMetricName, IsPrintable}
use email_delivery_engine.Metrics.Page.Order.{Shows, page-Shows}
use email_delivery_engine.Runtime.{Env, Redis}
use email_delivery_engine.Runtime.Rules.{is_ok}
use email_delivery_engine.Runtime.Success.{Responsive}
use email_delivery_engine.Queue.{Streams, nil}
use email_delivery_engine.Worker.Pipeline.{process}
use email_delivery_engine.Worker.Guarantees.Calm.{process-ok}
use email_delivery_engine.Prelude.Decimal.{decimal, decimal_within}
use email_delivery_engine.Prelude.Sorting.{sort_by, insert_by}
use email_delivery_engine.Consumer.{deferred_batch, poll_round}
use email_delivery_engine.Consumer.Redelivery.{Redelivered, poll_round-Redelivered}
use email_delivery_engine.Examples.Loops.{
  recording, recording-Appends, waiting, waiting_tables, waiting_start,
}
use email_delivery_engine.Consumer.Loops.{
  Pass, run_consumer, run_deferred_poller, run_abuse_sweeps, run_metrics_updater,
}
use email_delivery_engine.Consumer.Loops.Ends.{
  Ends, IsConsuming, IsPolling, IsSweeping, IsMeasuring, run_consumer-Ends, tickers-Ends,
}
use email_delivery_engine.Config.{load}
use email_delivery_engine.Startup.{Outside, run}
use email_delivery_engine.Startup.Server.{Response, respond}
use email_delivery_engine.Startup.Clean.{Leaves, leaked, run-Leaves}
use email_delivery_engine.Startup.Failures.{StartOutcome, first_failure, run-StartOutcome}
use email_delivery_engine.Examples.{noon, letter, tables, tally, calm, breaking, start}

pub tally-Responsive : Responsive tally
tally-Responsive = record { incr_replies = λ key n. (_, refl); expire_replies = λ key n s. refl }

process-ok_example : is_ok (process (commands tally) (acts calm) (pos 4) "m-1" start).0 ≡ true
process-ok_example = process-ok tally tally-Responsive calm (λ t. refl) (pos 4) "m-1" start

-- A stream with one entry that an earlier process has left pending.
abbrev pub stranded : Streams ℕ
stranded = record {
  xgroup_create = λ n. (none, n);
  xadd = λ key n. (true, n);
  xreadgroup = λ count block n. (nil, n);
  xautoclaim = λ idle count n. (some (record { id = "1-0"; field = some "m-1" } ∷ []), n);
  xack = λ key n. (true, n);
  xlen = λ n. (some 1, n);
}

-- The context is cancelled at the third pass.
abbrev three_passes : ℕ → Pass
three_passes j = record { live = ltb j 2; live_after = true; env = breaking }

run_consumer-Ends_example :
    Ends tally stranded
      (pos 4)
      3
      IsConsuming
      start
      (run_consumer tally stranded (pos 4) calm three_passes 5 start)
run_consumer-Ends_example =
    run_consumer-Ends tally stranded (pos 4) calm three_passes 2 5 start refl (omega arith)

abbrev two_ticks : ℕ → Option Env
two_ticks j = if ltb j 2 then some calm else none

tickers-Ends_example :
    Ends tally stranded (pos 4) 2 IsPolling start (run_deferred_poller two_ticks 9 stranded start)
    × Ends tally stranded (pos 4) 2 IsSweeping start (run_abuse_sweeps two_ticks 9 start)
    × Ends tally stranded
        (pos 4)
        2
        IsMeasuring
        start
        (run_metrics_updater two_ticks 9 stranded start)
tickers-Ends_example = tickers-Ends tally stranded (pos 4) two_ticks 2 9 start refl (omega arith)

-- Everything answers but the consumer group, which is there already.
abbrev outside : Outside
outside = record {
  host = record { variable = λ key. ""; name = some "box" };
  open_database = λ url. true;
  ping_database = true;
  parse_redis_url = λ url. true;
  ping_redis = true;
  create_group = some "BUSYGROUP Consumer Group name already exists";
}

run-Leaves_example : Leaves (run outside).1 (leaked outside (load outside.host))
run-Leaves_example = run-Leaves outside

run-StartOutcome_example : StartOutcome outside (first_failure outside (load outside.host))
run-StartOutcome_example = run-StartOutcome outside

abbrev late : String → ℕ → Message
late key t = record (letter key "c@gmail.com" Status.deferred 1) { next_attempt_at = some t }

abbrev late_tables : Database
late_tables = record tables {
  messages = late "m-8" noon ∷ late "m-9" (noon + 9) ∷ late "m-10" 3 ∷ [];
}

deferred_ready-Batch_example :
    Batch 1 (noon + 1) late_tables (deferred_ready 1 (noon + 1) late_tables)
deferred_ready-Batch_example = deferred_ready-Batch 1 (noon + 1) late_tables

abbrev lacks : ℕ → List ℕ → Bool
lacks c [] = true
lacks c (x ∷ xs) = not (x == c) && lacks c xs

Lacks-by_test : (c : ℕ) (s : List ℕ) → lacks c s ≡ true → Lacks c s
Lacks-by_test c [] h = tt
Lacks-by_test c (x ∷ xs) h = (λ e. absurd (ground arith), Lacks-by_test c xs (ground arith))

abbrev is_plain : List ℕ → Bool
is_plain [] = false
is_plain (c ∷ cs) = not (c == b'#') && lacks b' ' (c ∷ cs) && lacks b'\n' (c ∷ cs)

plain-IsMetricName :
    (name : String) (s : List ℕ) → codes name ≡ s → is_plain s ≡ true → IsMetricName name
plain-IsMetricName name [] e h = cc
plain-IsMetricName name (c ∷ cs) e h = record {
  first = c;
  others = cs;
  begins = e;
  no_comment = λ x. absurd (ground arith);
  no_space = subst (Lacks b' ') (sym e) (Lacks-by_test b' ' (c ∷ cs) (ground arith));
  no_newline = subst (Lacks b'\n') (sym e) (Lacks-by_test b'\n' (c ∷ cs) (ground arith));
}

abbrev is_printable : Registry → Bool
is_printable [] = true
is_printable ((k, e) ∷ r) = is_plain (codes k) && lacks b'\n' (codes e.help) && is_printable r

IsPrintable-by_test : (r : Registry) → is_printable r ≡ true → IsPrintable r
IsPrintable-by_test [] h = tt
IsPrintable-by_test ((k, e) ∷ r) h = (
  (
    plain-IsMetricName k (codes k) refl (ground arith),
    Lacks-by_test b'\n' (codes e.help) (ground arith),
  ),
  IsPrintable-by_test r (ground arith),
)

-- The metrics of a worker that has delivered a message.
abbrev measured : Registry
measured = set_gauge "queue_depth" 12345678 (inc "messages_delivered_total" (init []))

measured-is_printable : is_printable measured ≡ true
unfolding set_gauge inc add init init_from put_entry entry_of
measured-is_printable = refl

measured-IsPrintable : IsPrintable measured
measured-IsPrintable = IsPrintable-by_test measured measured-is_printable

page-Shows_example : Shows measured (samples (page measured))
page-Shows_example = page-Shows measured measured-IsPrintable

format_g_example : format_g 12345678 ≡ codes "1.2345678e+07"
unfolding format_g scientific strip_zeros decimal decimal_within
format_g_example = refl

-- A Redis that keeps what is added to its stream and lets every send through.
abbrev lenient : Redis (List String)
lenient = record { incr = λ key s. (some 1, s); expire = λ key seconds s. (true, s) }

lenient-Responsive : Responsive lenient
lenient-Responsive = record { incr_replies = λ key s. (1, refl); expire_replies = λ key n s. refl }

waiting_found : message_by_id "m-7" waiting_tables ≡ some waiting
unfolding message_by_id
waiting_found = refl

waiting_in_batch : Memᴰ "m-7" (deferred_ready deferred_batch (noon + 3) waiting_tables)
unfolding deferred_ready sort_by insert_by
waiting_in_batch = Memᴰ.head refl

poll_round-Redelivered_example :
    Redelivered
      (λ s. s)
      (pos 4)
      "m-7"
      waiting
      (poll_round (acts calm) (stream_commands recording) waiting_start).1
      (process
        (commands lenient)
        (acts calm)
        (pos 4)
        "m-7"
        (poll_round (acts calm) (stream_commands recording) waiting_start).1).1
poll_round-Redelivered_example =
    poll_round-Redelivered lenient lenient-Responsive recording (λ s. s) recording-Appends calm
      (λ t. refl) (pos 4) "m-7" waiting waiting_start waiting_found refl waiting_in_batch

registry-Readings_example : Readings measured
registry-Readings_example = registry-Readings measured

abbrev not_found : Response
not_found = record { status = 404; content_type = none; body = codes "404 page not found\n" }

health_answers : (respond not_found "/health" measured).status ≡ 200
unfolding respond
health_answers = refl

respond_elsewhere : respond not_found "/" measured ≡ not_found
unfolding respond
respond_elsewhere = refl

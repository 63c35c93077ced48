-- ===== src/Examples/Loops.antt =====
-- Rounds of the loops, the sweep, the limiter and the configuration on the small installation, and
-- examples of their theorems.
use email_delivery_engine.Queue.{stream_commands}
use email_delivery_engine.Runtime.Interface.{acts}
use mathlib.Core.List.{Memᴰ}
use email_delivery_engine.Prelude.Sorting.{sort_by, insert_by}
use email_delivery_engine.Store.Query.{deferred_ready}
use email_delivery_engine.Consumer.{deferred_batch, poll_round}
use email_delivery_engine.Consumer.Requeue.{Appends, poll_round-adds}
use email_delivery_engine.Queue.{nil}
use email_delivery_engine.Prelude.{
  ◌++◌, String, ◌+◌, ℕ, min, ◌≡◌, refl, true, none, some, List, [], ◌∷◌, arith, str_eq,
  if◌then◌else◌,
}
use email_delivery_engine.Prelude.Int.{pos}
use email_delivery_engine.Store.{Status, Message, Database}
use email_delivery_engine.Store.Query.{message_by_id, customer_by_id, bounce_rate, rate_above}
use email_delivery_engine.Runtime.{Env, World}
use email_delivery_engine.Throttle.{bucket_of}
use email_delivery_engine.Throttle.Window.{CountsHits, passed, passed-min}
use email_delivery_engine.Queue.{Streams, streams}
use email_delivery_engine.Worker.Sweep.{run_abuse_sweep}
use email_delivery_engine.Worker.Sweep.Limits.{Swept, limited_form, run_abuse_sweep-Swept}
use email_delivery_engine.Worker.Sweep.Reach.{run_abuse_sweep-limits}
use email_delivery_engine.Consumer.{Round, consuming, polling, sweeping, measuring, run_rounds}
use email_delivery_engine.Consumer.Final.{run_rounds-terminal}
use email_delivery_engine.Config.{Host}
use email_delivery_engine.Examples.{noon, letter, done, acme, tables, tally, calm, breaking, start}

-- A stream that delivers the message that is done again and again.
abbrev repeating : Streams ℕ
repeating = record {
  xgroup_create = λ n. (none, n);
  xadd = λ key n. (true, n);
  xreadgroup =
      λ count block n. (streams ((record { id = "1-0"; field = some "m-2" } ∷ []) ∷ []), n);
  xautoclaim = λ idle count n. (some [], n);
  xack = λ key n. (true, n);
  xlen = λ n. (some 1, n);
}

abbrev busy_rounds : List Round
busy_rounds =
    consuming calm ∷ polling calm ∷ consuming breaking ∷ sweeping calm ∷ measuring calm ∷ []

done_stored : message_by_id "m-2" tables ≡ some done
unfolding message_by_id
done_stored = refl

run_rounds-terminal_example :
    message_by_id "m-2" (run_rounds tally repeating (pos 4) busy_rounds start).db ≡ some done
run_rounds-terminal_example =
    run_rounds-terminal tally repeating (pos 4) "m-2" done refl busy_rounds start done_stored

-- One delivery and one bounce: a rate of 50 percent.
abbrev bounced_tables : Database
bounced_tables = record tables {
  messages =
      letter "m-5" "a@gmail.com" Status.delivered 1
      ∷ letter "m-6" "b@gmail.com" Status.bounced 1
      ∷ [];
}

abbrev bounced_start : World ℕ
bounced_start = record start { db = bounced_tables }

abbrev at_noon : Env
at_noon = record calm { clock = λ t. noon }

acme_found : customer_by_id "acme" bounced_tables ≡ some acme
unfolding customer_by_id
acme_found = refl

rate_is_high : rate_above 20 (bounce_rate "acme" noon bounced_tables) ≡ true
unfolding rate_above bounce_rate
rate_is_high = refl

run_abuse_sweep-limits_example :
    customer_by_id "acme" (run_abuse_sweep (acts at_noon) bounced_start).1.db
    ≡ some (limited_form acme)
run_abuse_sweep-limits_example =
    run_abuse_sweep-limits at_noon (λ t. refl) "acme" acme refl bounced_start acme_found
      (λ i. rate_is_high)

run_abuse_sweep-Swept_example :
    Swept bounced_tables (run_abuse_sweep (acts breaking) bounced_start).1.db
run_abuse_sweep-Swept_example = run_abuse_sweep-Swept breaking bounced_start

tally-CountsHits : CountsHits tally (λ key n. n)
tally-CountsHits = record {
  incr_reply = λ key s. ground arith;
  incr_held = λ key s. omega arith;
  expire_reply = λ key n s. refl;
  expire_held = λ key n s. refl;
}

passed-min_example : passed tally at_noon "provider" "gmail" 3 5 start ≡ min 5 3
passed-min_example =
    passed-min tally (λ key n. n) tally-CountsHits at_noon "provider" "gmail" 3 (bucket_of noon)
      (λ t. refl) 5 start refl

abbrev zero_host : Host
zero_host = record {
  variable = λ key. if str_eq key "MAX_ATTEMPTS" then "0" else "";
  name = some "box";
}

abbrev pub waiting : Message
waiting = record (letter "m-7" "c@gmail.com" Status.deferred 1) { next_attempt_at = some noon }

abbrev pub waiting_tables : Database
waiting_tables = record tables { messages = waiting ∷ done ∷ [] }

waiting-listed : Memᴰ "m-7" (deferred_ready 100 (noon + 1) waiting_tables)
unfolding deferred_ready sort_by insert_by
waiting-listed = Memᴰ.head refl

-- A stream that keeps what is added to it.
abbrev pub recording : Streams (List String)
recording = record {
  xgroup_create = λ s. (none, s);
  xadd = λ key s. (true, s ++ (key ∷ []));
  xreadgroup = λ count block s. (nil, s);
  xautoclaim = λ idle count s. (some [], s);
  xack = λ key s. (true, s);
  xlen = λ s. (some 0, s);
}

pub recording-Appends : Appends recording (λ s. s)
recording-Appends = record { xadd_reply = λ key s. refl; xadd_added = λ key s. refl }

abbrev pub waiting_start : World (List String)
waiting_start = record { db = waiting_tables; metrics = []; redis = "m-0" ∷ []; tick = 3 }

poll_round-adds_example :
    (poll_round (acts calm) (stream_commands recording) waiting_start).1.redis
    ≡ ("m-0" ∷ []) ++ deferred_ready deferred_batch (noon + 3) waiting_tables
poll_round-adds_example =
    poll_round-adds recording (λ s. s) recording-Appends calm (λ t. refl) waiting_start

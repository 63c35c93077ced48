-- ===== src/Queue.antt =====
-- data-plane/internal/queue/queue.go: the delivery stream. The Redis stream commands are functions on
-- the state of Redis, of which nothing is assumed; the stream, the group and the consumer, which are
-- fixed for a process, are part of them.
use email_delivery_engine.Prelude.{
  ℕ, String, Bool, true, false, Option, none, some, List, [], ◌∷◌, ◌++◌, not, if◌then◌else◌,
}
use email_delivery_engine.Prelude.Text.{codes, contains}
use email_delivery_engine.Runtime.{Result, ok, err, redis_error, wrap, Action, wrapping}

-- A stream entry as Redis returns it: `field` is the value of message_id, if it is there and a text.
pub record XMessage : Type 0 where
  pub id : String
  pub field : Option String

-- What XREADGROUP answers: nil where the block time is over, an error, or entries by stream.
pub data ReadReply : Type 0 where
  nil failure : ReadReply
  streams : List (List XMessage) → ReadReply

pub record Streams (R : Type 0) : Type 0 where
  pub xgroup_create : R → Option String × R
  pub xadd : String → R → Bool × R
  pub xreadgroup : ℕ → ℕ → R → ReadReply × R
  pub xautoclaim : ℕ → ℕ → R → Option (List XMessage) × R
  pub xack : String → R → Bool × R
  pub xlen : R → Option ℕ × R

pub record QueueEntry : Type 0 where
  pub id : String
  pub message_id : String

abbrev pub x_messages_to_entries : List XMessage → List QueueEntry
x_messages_to_entries [] = []
x_messages_to_entries (m ∷ ms) =
    record { id = m.id; message_id = elim m.field [ none ↦ "" | some key ↦ key ] }
    ∷ x_messages_to_entries ms

abbrev pub to_entries : List (List XMessage) → List QueueEntry
to_entries [] = []
to_entries (s ∷ ss) = x_messages_to_entries s ++ to_entries ss

abbrev pub entries_read : ReadReply → Result (List QueueEntry)
entries_read nil = ok []
entries_read failure = err (wrap "xreadgroup" redis_error)
entries_read (streams ss) = ok (to_entries ss)

abbrev pub entries_claimed : Option (List XMessage) → Result (List QueueEntry)
entries_claimed none = err redis_error
entries_claimed (some ms) = ok (x_messages_to_entries ms)

abbrev pub is_busy_group : String → Bool
is_busy_group text = contains (codes text) (codes "BUSYGROUP")

abbrev pub group_ready : Option String → Result Unit
group_ready none = ok tt
group_ready (some text) =
    if not (is_busy_group text) then err (wrap "create consumer group" redis_error) else ok tt

abbrev pub replied : {A : Type 0} → Option A → Result A
replied none = err redis_error
replied (some a) = ok a

abbrev pub done_or_error : Bool → Result Unit
done_or_error true = ok tt
done_or_error false = err redis_error

module _ {R : Type 0} where
  -- A command: its reply as a result, with the new state of Redis.
  unfoldable pub command : {A B : Type 0} → (R → A × R) → (A → Result B) → Action R B
  command run reply w = let (a, s) = run w.redis in (reply a, record w { redis = s })

module _ {R : Type 0} (streams : Streams R) where
  unfoldable pub ensure_group : Action R Unit
  ensure_group = command streams.xgroup_create group_ready

  unfoldable pub enqueue : String → Action R Unit
  enqueue key = command (streams.xadd key) done_or_error

  unfoldable pub read : ℕ → ℕ → Action R (List QueueEntry)
  read count block = command (streams.xreadgroup count block) entries_read

  unfoldable pub reclaim : ℕ → ℕ → Action R (List QueueEntry)
  reclaim min_idle count =
      wrapping "xautoclaim" (command (streams.xautoclaim min_idle count) entries_claimed)

  unfoldable pub ack : String → Action R Unit
  ack key = command (streams.xack key) done_or_error

  unfoldable pub depth : Action R ℕ
  depth = command streams.xlen replied

-- The operations of the queue: an interface that a call on its own and one among others both fill.
pub record Stream (M : Type 0 → Type 0) : Type 1 where
  pub enqueue : String → M Unit
  pub read : ℕ → ℕ → M (List QueueEntry)
  pub reclaim : ℕ → ℕ → M (List QueueEntry)
  pub ack : String → M Unit
  pub depth : M ℕ

abbrev pub stream_commands : {R : Type 0} → Streams R → Stream (Action R)
stream_commands redis = record {
  enqueue = enqueue redis;
  read = read redis;
  reclaim = reclaim redis;
  ack = ack redis;
  depth = depth redis;
}

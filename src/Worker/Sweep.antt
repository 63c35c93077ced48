-- ===== src/Worker/Sweep.antt =====
-- The abuse sweep: `RunAbuseSweep` of data-plane/internal/worker/worker.go. It returns no error: a
-- customer whose statements fail is passed over.
pub mod Limits
pub mod Reach
use email_delivery_engine.Prelude.{
  ℕ, String, Bool, true, false, Option, none, some, List, [], ◌∷◌, map, if◌then◌else◌,
}
use email_delivery_engine.Store.{SendingState, Customer, Database}
use email_delivery_engine.Store.Query.{customer_by_id, BounceRate, bounce_rate, rate_above}
use email_delivery_engine.Store.Statement.{set_sending_state}
use email_delivery_engine.Runtime.Interface.{Ops}
use email_delivery_engine.Runtime.{Result, ok, err}

-- hardBounceThresholdPct
abbrev pub threshold_pct : ℕ
threshold_pct = 20

-- SELECT id FROM customers
abbrev pub customer_ids : Database → List String
customer_ids db = map (λ (c : Customer). c.id) db.customers

abbrev pub is_watched : SendingState → Bool
is_watched SendingState.trusted = true
is_watched SendingState.new = true
is_watched _ = false

module _ {M : Type 0 → Type 0} (ops : Ops M) where
  infixl 5 ◌>>=◌ ◌>>◌
  abbrev ◌>>=◌ : {A B : Type 0} → M A → (A → M B) → M B
  ◌>>=◌ = ops.bind

  abbrev ◌>>◌ : {A B : Type 0} → M A → M B → M B
  m >> k = ops.bind m (λ _. k)

  abbrev pub note_limited : Result Unit → M Unit
  note_limited (ok done) = ops.count "abuse_limited_customers_total"
  note_limited (err e) = ops.return tt

  abbrev pub limit_customer : String → M Unit
  limit_customer key = do
    done ← ops.caught (ops.exec (λ _. set_sending_state key SendingState.limited))
    note_limited done

  abbrev pub judge_rate : String → Result BounceRate → M Unit
  judge_rate key (err e) = ops.return tt
  judge_rate key (ok rate) =
      if rate_above threshold_pct rate then limit_customer key else ops.return tt

  abbrev pub judge_customer : String → Result (Option Customer) → M Unit
  judge_customer key (err e) = ops.return tt
  judge_customer key (ok none) = ops.return tt
  judge_customer key (ok (some c)) =
      if is_watched c.sending_state
      then (do rate ← ops.caught (ops.query (bounce_rate key)); judge_rate key rate)
      else ops.return tt

  -- The body of the loop.
  unfoldable pub sweep_customer : String → M Unit
  sweep_customer key = do
    found ← ops.caught (ops.query (λ _. customer_by_id key))
    judge_customer key found

  unfoldable pub sweep_customers : List String → M Unit
  sweep_customers [] = ops.return tt
  sweep_customers (key ∷ keys) = sweep_customer key >> sweep_customers keys

  abbrev pub sweep_listed : Result (List String) → M Unit
  sweep_listed (err e) = ops.return tt
  sweep_listed (ok keys) = sweep_customers keys

  unfoldable pub run_abuse_sweep : M Unit
  run_abuse_sweep = do keys ← ops.caught (ops.query (λ _. customer_ids)); sweep_listed keys

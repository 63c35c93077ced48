-- ===== src/Metrics/Counting.antt =====
-- What a reader of the registry of internal/metrics/metrics.go sees after each operation.
use email_delivery_engine.Prelude.{
  ℕ, ◌+◌, String, ◌≡◌, refl, some, List, [], ◌∷◌, Bool, false, ◌||◌, str_eq, if◌then◌else◌, arith,
  eq_iff,
}
use email_delivery_engine.Metrics.{
  counter, gauge, Entry, Registry, Definition, definitions, entry_of, put_entry, or_new, init_from,
  init, add, inc, set_gauge,
}

pub entry_of-put_entry :
    (name k : String) (e : Entry) (r : Registry)
    → entry_of k (put_entry name e r) ≡ (if str_eq name k then some e else entry_of k r)
unfolding entry_of put_entry
entry_of-put_entry name k e [] = refl
entry_of-put_entry name k e ((j, old) ∷ r) =
    ground (arith, eq_iff name k, eq_iff j name, eq_iff j k, entry_of-put_entry name k e r)

-- The value under a name; a name that is not registered reads 0.
abbrev pub value_at : String → Registry → ℕ
value_at k r = (or_new counter (entry_of k r)).value

-- Adding to a metric raises its value by the amount and leaves every other metric as it was.
value_at-add :
    (name k : String) (n : ℕ) (r : Registry)
    → value_at k (add name n r) ≡ (if str_eq name k then value_at k r + n else value_at k r)
unfolding add
value_at-add name k n r = ground (
  arith,
  eq_iff name k,
  entry_of-put_entry name k
      (record (or_new counter (entry_of name r)) {
        value = (or_new counter (entry_of name r)).value + n;
      })
      r,
)

-- Setting a gauge.
value_at-set_gauge :
    (name k : String) (v : ℕ) (r : Registry)
    → value_at k (set_gauge name v r) ≡ (if str_eq name k then v else value_at k r)
unfolding set_gauge
value_at-set_gauge name k v r =
    ground
      (arith, entry_of-put_entry name k (record (or_new gauge (entry_of name r)) { value = v }) r)

abbrev is_defined : String → List Definition → Bool
is_defined k [] = false
is_defined k (d ∷ ds) = str_eq d.name k || is_defined k ds

value_at-init_from :
    (k : String) (ds : List Definition) (r : Registry)
    → value_at k (init_from ds r) ≡ (if is_defined k ds then 0 else value_at k r)
unfolding init_from
value_at-init_from k [] r = refl
value_at-init_from k (d ∷ ds) r = ground (
  arith,
  entry_of-put_entry d.name k (record { typ = d.typ; help = d.help; value = 0 }) r,
  value_at-init_from k ds (put_entry d.name (record { typ = d.typ; help = d.help; value = 0 }) r),
)

-- What the values of a registry are after each of its operations.
pub record Readings (r : Registry) : Type 0 where
  pub added :
      (name k : String) (n : ℕ)
      → value_at k (add name n r) ≡ (if str_eq name k then value_at k r + n else value_at k r)
  pub counted :
      (name k : String)
      → value_at k (inc name r) ≡ (if str_eq name k then value_at k r + 1 else value_at k r)
  pub gauged :
      (name k : String) (v : ℕ)
      → value_at k (set_gauge name v r) ≡ (if str_eq name k then v else value_at k r)
  pub started :
      (k : String) → value_at k (init r) ≡ (if is_defined k definitions then 0 else value_at k r)

-- Adding to a metric raises its value by the amount, counting by 1, and setting a gauge gives it the
-- value; each leaves the values of all other metrics as they were. The start puts the value of each
-- metric of the table to 0 and leaves the others.
pub registry-Readings : (r : Registry) → Readings r
unfolding inc init
registry-Readings r = record {
  added = λ name k n. value_at-add name k n r;
  counted = λ name k. value_at-add name k 1 r;
  gauged = λ name k v. value_at-set_gauge name k v r;
  started = λ k. value_at-init_from k definitions r;
}

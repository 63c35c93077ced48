-- ===== src/Metrics/Page/Order.antt =====
-- The page of internal/metrics/metrics.go as a whole: each metric once, in the order of the names.
use mathlib.Core.List.{Memᴰ}
use email_delivery_engine.Prelude.{
  ℕ, ◌<◌, ltb, ◌==◌, ◌⊎◌, inr, String, ◌≡◌, refl, sym, ap, subst, ◌∙◌, true, false, some, List, [],
  ◌∷◌, suc, inl, inr, map, arith, str_eq, eq_iff, length, Bool-cases,
}
use email_delivery_engine.Prelude.Text.{codes}
use email_delivery_engine.Prelude.Members.{mem-map, map-mem, All-mem, mem-All}
use email_delivery_engine.Prelude.Sorting.{
  sort_by, mem-sort_by, sort_by-mem, length-sort_by, sort_by-Ascending, map-Ascending, Chain,
  Ascending-Chain,
}
use email_delivery_engine.Metrics.{counter, Entry, Registry, entry_of, or_new}
use email_delivery_engine.Metrics.Page.{codes_leb, name_leb, names_of, snapshot, page}
use email_delivery_engine.Metrics.Page.Scrape.{samples}
use email_delivery_engine.Metrics.Page.RoundTrip.{Lacks}
use email_delivery_engine.Metrics.Page.Samples.{IsMetricName, IsPrintable, samples-render}

codes_leb_total : (x y : List ℕ) → codes_leb x y ≡ false → codes_leb y x ≡ true
unfolding codes_leb
codes_leb_total [] y h = cc
codes_leb_total (x ∷ xs) [] h = refl
codes_leb_total (x ∷ xs) (y ∷ ys) h = ground (arith, codes_leb_total xs ys)

codes_leb_trans :
    (x y z : List ℕ) → codes_leb x y ≡ true → codes_leb y z ≡ true → codes_leb x z ≡ true
unfolding codes_leb
codes_leb_trans [] y z h k = refl
codes_leb_trans (x ∷ xs) [] z h k = cc
codes_leb_trans (x ∷ xs) (y ∷ ys) [] h k = cc
codes_leb_trans (x ∷ xs) (y ∷ ys) (z ∷ zs) h k = ground (arith, codes_leb_trans xs ys zs)

entry_of-names :
    (k : String) (r : Registry) (e : Entry) → entry_of k r ≡ some e → Memᴰ k (names_of r)
unfolding entry_of
entry_of-names k [] e h = cc
entry_of-names k ((j, old) ∷ r) e h = elim (Bool-cases (str_eq j k)) [
  | inl t ↦ Memᴰ.head (sym ((eq_iff j k).0 t))
  | inr f ↦ Memᴰ.tail (entry_of-names k r e (rw f at h))
]

names-entry_of :
    (k : String) (r : Registry)
    → Memᴰ k (names_of r)
    → (e : Entry) × (entry_of k r ≡ some e) × Memᴰ (k, e) r
unfolding entry_of
names-entry_of k [] h = elim h [ ]
names-entry_of k ((j, old) ∷ r) h = elim (Bool-cases (str_eq j k)) [
  | inl t ↦ (old, rw t refl, Memᴰ.head (ap (λ n. (n, old)) (sym ((eq_iff j k).0 t))))
  | inr f ↦ elim h [
    | Memᴰ.head e ↦ cc ((eq_iff j k).1 (sym e), f)
    | Memᴰ.tail there ↦
        let (e, found, stored) = names-entry_of k r there in (e, rw f found, Memᴰ.tail stored)
  ]
]

-- The order of texts by their codes.
abbrev Precedes : List ℕ → List ℕ → Type 0
Precedes [] ys = Unit
Precedes (x ∷ xs) [] = ⊥
Precedes (x ∷ xs) (y ∷ ys) = (x < y) ⊎ ((x ≡ y) × Precedes xs ys)

codes_leb-Precedes : (x y : List ℕ) → codes_leb x y ≡ true → Precedes x y
unfolding codes_leb
codes_leb-Precedes [] y h = tt
codes_leb-Precedes (x ∷ xs) [] h = cc
codes_leb-Precedes (x ∷ xs) (y ∷ ys) h = elim (Bool-cases (x == y)) [
  | inl t ↦ inr (ground arith, codes_leb-Precedes xs ys (rw t at h))
  | inr f ↦ let below : ltb x y ≡ true = rw f at h in inl (ground arith)
]

-- What the page says of a name.
abbrev row : Registry → String → List ℕ × ℕ
row r name = (codes name, (or_new counter (entry_of name r)).value)

-- A page that shows each metric of a registry in one sample, in the order of the names.
pub record Shows (r : Registry) (shown : List (List ℕ × ℕ)) : Type 0 where
  pub complete : (k : String) (e : Entry) → entry_of k r ≡ some e → Memᴰ (codes k, e.value) shown
  pub sound :
      {s : List ℕ × ℕ}
      → Memᴰ s shown
      → (k : String) × (e : Entry) × (entry_of k r ≡ some e) × (s ≡ (codes k, e.value))
  pub one_each : length shown ≡ length r
  pub in_order : Chain (λ a b. Precedes a.0 b.0) shown

module _ (r : Registry) where
  abbrev sorted : List String
  sorted = sort_by name_leb (names_of r)

  abbrev entry : String → String × Entry
  entry name = (name, or_new counter (entry_of name r))

  printable_entry :
      IsPrintable r
      → (name : String) → Memᴰ name sorted
      → IsMetricName name × Lacks b'\n' (codes (or_new counter (entry_of name r)).help)
  printable_entry good name h =
      let (e, found, stored) = names-entry_of name r (mem-sort_by name_leb _ h) in
      rw found (
        All-mem (λ (m : String × Entry). IsMetricName m.0 × Lacks b'\n' (codes m.1.help)) r good
          stored)

  snapshot-IsPrintable : IsPrintable r → IsPrintable (snapshot r)
  unfolding snapshot
  snapshot-IsPrintable good = mem-All _ (map entry sorted) (λ m h.
      let (name, there, e) = map-mem entry sorted h in
      subst (λ (m : String × Entry). IsMetricName m.0 × Lacks b'\n' (codes m.1.help)) e
        (printable_entry good name there))

map-map :
    {A B C : Type 0} (f : B → C) (g : A → B) (xs : List A)
    → map f (map g xs) ≡ map (λ x. f (g x)) xs
map-map f g [] = refl
map-map f g (x ∷ xs) = ap (λ rest. f (g x) ∷ rest) (map-map f g xs)

samples-page : (r : Registry) → IsPrintable r → samples (page r) ≡ map (row r) (sorted r)
unfolding page snapshot
samples-page r good =
    samples-render (snapshot r) (snapshot-IsPrintable r good) ∙ map-map _ (entry r) (sorted r)

length-map : {A B : Type 0} (f : A → B) (xs : List A) → length (map f xs) ≡ length xs
length-map f [] = refl
length-map f (x ∷ xs) = ap suc (length-map f xs)

length-names_of : (r : Registry) → length (names_of r) ≡ length r
length-names_of [] = refl
length-names_of ((k, e) ∷ r) = ap suc (length-names_of r)

row-Shows : (r : Registry) → Shows r (map (row r) (sorted r))
row-Shows r = record {
  complete = λ k e found.
      subst (λ (x : Entry). Memᴰ (codes k, x.value) (map (row r) (sorted r)))
        (ap (or_new counter) found)
        (mem-map (row r) (sorted r) (sort_by-mem name_leb _ (entry_of-names k r e found)));
  sound = λ h.
      let (k, there, same) = map-mem (row r) (sorted r) h in
      let (e, found, stored) = names-entry_of k r (mem-sort_by name_leb _ there) in
      (k, e, found, sym same ∙ ap (λ o. (codes k, (or_new counter o).value)) found);
  one_each =
      length-map (row r) (sorted r) ∙ length-sort_by name_leb (names_of r) ∙ length-names_of r;
  in_order =
      Ascending-Chain (λ a b. codes_leb a.0 b.0) (λ a b. Precedes a.0 b.0)
        (λ a b. codes_leb-Precedes a.0 b.0) _
        (map-Ascending name_leb _ (row r) (λ x y h. h) (sorted r)
          (sort_by-Ascending name_leb (λ x y. codes_leb_total (codes x) (codes y))
            (λ x y z. codes_leb_trans (codes x) (codes y) (codes z)) (names_of r)));
}

-- Where the names can stand in samples and each help text stands on one line, the lines of the page
-- that are no comments are the metrics of the registry with their values: as many as there are
-- entries, every one, no others, and in the order of the names.
pub page-Shows : (r : Registry) → IsPrintable r → Shows r (samples (page r))
page-Shows r good = subst (Shows r) (sym (samples-page r good)) (row-Shows r)

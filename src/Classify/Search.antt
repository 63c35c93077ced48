-- ===== src/Classify/Search.antt =====
-- What the substring search of the classifier and the simulator finds, and lower-casing.
use email_delivery_engine.Prelude.{
  ℕ, ◌≡◌, refl, ap, ◌↔◌, inl, inr, true, List, [], ◌∷◌, ◌++◌, arith, Bool-cases,
}
use email_delivery_engine.Prelude.Text.{starts_with, contains, to_lower, lower_code}

-- `p` stands in `s`, with some text before it and some behind it.
abbrev pub Occurs : List ℕ → List ℕ → Type 0
Occurs p s = (pre : List ℕ) × (post : List ℕ) × (s ≡ pre ++ (p ++ post))

starts_with-split : (p s : List ℕ) → starts_with p s ≡ true → (post : List ℕ) × (s ≡ p ++ post)
unfolding starts_with
starts_with-split [] s h = (s, refl)
starts_with-split (p ∷ ps) [] h = cc
starts_with-split (p ∷ ps) (c ∷ cs) h =
    let first : p ≡ c = ground arith in
    let (post, e) = starts_with-split ps cs (ground arith) in (post, cc)

starts_with-append : (p post : List ℕ) → starts_with p (p ++ post) ≡ true
unfolding starts_with
starts_with-append [] post = refl
starts_with-append (p ∷ ps) post = ground (arith, starts_with-append ps post)

contains-split : (s p : List ℕ) → contains s p ≡ true → Occurs p s
unfolding contains
contains-split [] p h = let (post, e) = starts_with-split p [] h in ([], post, e)
contains-split (c ∷ cs) p h = elim (Bool-cases (starts_with p (c ∷ cs))) [
  | inl here ↦ let (post, e) = starts_with-split p (c ∷ cs) here in ([], post, e)
  | inr there ↦
      let (pre, post, e) = contains-split cs p (rw there at h) in (c ∷ pre, post, ap (λ t. c ∷ t) e)
]

contains-append : (pre p post : List ℕ) → contains (pre ++ (p ++ post)) p ≡ true
unfolding contains
contains-append [] p post = contains_start p (p ++ post) (starts_with-append p post)
  where
    contains_start : (p s : List ℕ) → starts_with p s ≡ true → contains s p ≡ true
    contains_start p [] h = h
    contains_start p (c ∷ cs) h = ground arith
contains-append (c ∷ pre) p post = ground (arith, contains-append pre p post)

-- The search answers true exactly when the phrase occurs in the text.
pub contains_iff : (s p : List ℕ) → (contains s p ≡ true) ↔ Occurs p s
contains_iff s p = (contains-split s p, λ (pre, post, e). rw e (contains-append pre p post))

lower_code_idem : (c : ℕ) → lower_code (lower_code c) ≡ lower_code c
lower_code_idem c = ground arith

pub to_lower_idem : (s : List ℕ) → to_lower (to_lower s) ≡ to_lower s
unfolding to_lower
to_lower_idem [] = refl
to_lower_idem (c ∷ cs) = cc (lower_code_idem c, to_lower_idem cs)

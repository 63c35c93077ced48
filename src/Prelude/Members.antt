-- ===== src/Prelude/Members.antt =====
-- What the searches by a Boolean test find, as members of the list.
use mathlib.Core.List.{Memᴰ, List, [], ◌∷◌, map}
use mathlib.Core.Path.{◌≡◌, refl, sym, ap, subst, ◌∙◌}
use mathlib.Core.Logic.{◌⊎◌, inl, inr}
use mathlib.Core.Bool.{Bool, true, false}
use mathlib.Core.Option.{some}
use native.Mathlib.Omega.{arith}
use email_delivery_engine.Prelude.Tests.{if◌then◌else◌, Bool-cases}
use email_delivery_engine.Prelude.Lists.{All, find?, select, update_where}

mem-if :
    {A : Type 0} {a : A} (b : Bool) (x : A) (rest : List A)
    → Memᴰ a (if b then x ∷ rest else rest)
    → ((b ≡ true) × (a ≡ x)) ⊎ Memᴰ a rest
mem-if true x rest (Memᴰ.head e) = inl (refl, e)
mem-if true x rest (Memᴰ.tail m) = inr m
mem-if false x rest m = inr m

select_step :
    {A : Type 0} (p : A → Bool) {a : A} (x : A) (xs : List A)
    → ((p x ≡ true) × (a ≡ x)) ⊎ Memᴰ a (select p xs)
    → (Memᴰ a (select p xs) → Memᴰ a xs × (p a ≡ true))
    → Memᴰ a (x ∷ xs) × (p a ≡ true)
select_step p x xs (inl (t, e)) ih = (Memᴰ.head e, ap p e ∙ t)
select_step p x xs (inr m) ih = let (there, t) = ih m in (Memᴰ.tail there, t)

pub mem-select :
    {A : Type 0} (p : A → Bool) {a : A} (xs : List A)
    → Memᴰ a (select p xs)
    → Memᴰ a xs × (p a ≡ true)
mem-select p [] m = elim m [ ]
mem-select p (x ∷ xs) m = select_step p x xs (mem-if (p x) x (select p xs) m) (mem-select p xs)

pub find?-some :
    {A : Type 0} (p : A → Bool) (xs : List A) {a : A}
    → find? p xs ≡ some a
    → Memᴰ a xs × (p a ≡ true)
find?-some p [] h = cc
find?-some p (x ∷ xs) {a} h = elim (Bool-cases (p x)) [
  | inl t ↦
      let first : some x ≡ some a = rw t at h in
      let e : x ≡ a = cc in (Memᴰ.head (sym e), ap p (sym e) ∙ t)
  | inr f ↦ let (there, t) = find?-some p xs (rw f at h) in (Memᴰ.tail there, t)
]

module _ {A : Type 0} (p q : A → Bool) (f : A → A) where
  -- An update of the elements that a search is for.
  pub find?-update_self :
      ((x : A) → p (f x) ≡ p x)
      → (xs : List A) {a : A} → find? p xs ≡ some a
      → find? p (update_where p f xs) ≡ some (f a)
  find?-update_self same [] h = cc
  find?-update_self same (x ∷ xs) {a} h = elim (Bool-cases (p x)) [
    | inl t ↦
        let first : some x ≡ some a = rw t at h in
        let e : x ≡ a = cc in rw t (rw (same x, t) (ap (λ y. some (f y)) e))
    | inr n ↦ rw n (rw n (find?-update_self same xs (rw n at h)))
  ]

  -- An update of elements that a search is not for.
  pub find?-update_other :
      ((x : A) → q (f x) ≡ q x)
      → ((x : A) → p x ≡ true → q x ≡ false)
      → (xs : List A) → find? q (update_where p f xs) ≡ find? q xs
  find?-update_other same apart [] = refl
  find?-update_other same apart (x ∷ xs) = elim (Bool-cases (p x)) [
    | inl t ↦ rw t (rw (same x, apart x t) (find?-update_other same apart xs))
    | inr n ↦ rw n (ap (λ rest. if q x then some x else rest) (find?-update_other same apart xs))
  ]

  -- An update that passes over what a search finds.
  pub find?-update_missed :
      ((x : A) → q (f x) ≡ q x)
      → (xs : List A) {a : A} → find? q xs ≡ some a
      → p a ≡ false
      → find? q (update_where p f xs) ≡ some a
  find?-update_missed same [] h n = cc
  find?-update_missed same (x ∷ xs) {a} h n = elim (Bool-cases (q x)) [
    | inl t ↦
        let first : some x ≡ some a = rw t at h in
        let e : x ≡ a = cc in rw (ap p e ∙ n, t) (ap some e)
    | inr m ↦
        let rest = find?-update_missed same xs (rw m at h) n in
        elim (Bool-cases (p x)) [ inl t ↦ rw (t, same x, m) rest | inr u ↦ rw (u, m) rest ]
  ]

pub mem-select_back :
    {A : Type 0} (p : A → Bool) {a : A} (xs : List A)
    → Memᴰ a xs
    → p a ≡ true
    → Memᴰ a (select p xs)
mem-select_back p [] m h = elim m [ ]
mem-select_back p (x ∷ xs) (Memᴰ.head e) h = rw (ap p (sym e) ∙ h) (Memᴰ.head e)
mem-select_back p (x ∷ xs) (Memᴰ.tail m) h = elim (Bool-cases (p x)) [
  | inl t ↦ rw t (Memᴰ.tail (mem-select_back p xs m h))
  | inr n ↦ rw n (mem-select_back p xs m h)
]

pub mem-map : {A B : Type 0} (f : A → B) (xs : List A) {a : A} → Memᴰ a xs → Memᴰ (f a) (map f xs)
mem-map f (y ∷ xs) (Memᴰ.head e) = Memᴰ.head (ap f e)
mem-map f (y ∷ xs) (Memᴰ.tail m) = Memᴰ.tail (mem-map f xs m)
mem-map f [] m = elim m [ ]

pub map-mem :
    {A B : Type 0} (f : A → B) (xs : List A) {b : B}
    → Memᴰ b (map f xs)
    → (a : A) × Memᴰ a xs × (f a ≡ b)
map-mem f [] m = elim m [ ]
map-mem f (y ∷ xs) (Memᴰ.head e) = (y, Memᴰ.head refl, sym e)
map-mem f (y ∷ xs) (Memᴰ.tail m) = let (a, there, e) = map-mem f xs m in (a, Memᴰ.tail there, e)

-- What a search finds behind an update is what it found before, or the update of that.
pub find?-update_inv :
    {A : Type 0} (p q : A → Bool) (f : A → A)
    → ((x : A) → q (f x) ≡ q x)
    → (xs : List A) {b : A} → find? q (update_where p f xs) ≡ some b
    → (a : A) × (find? q xs ≡ some a) × ((b ≡ a) ⊎ ((p a ≡ true) × (b ≡ f a)))
find?-update_inv p q f same [] h = cc
find?-update_inv p q f same (x ∷ xs) {b} h = elim (Bool-cases (q x)) [
  | inl t ↦ elim (Bool-cases (p x)) [
    | inl u ↦
        let first : some (f x) ≡ some b = rw (u, same x, t) at h in (x, rw t refl, inr (u, cc))
    | inr n ↦ let first : some x ≡ some b = rw (n, t) at h in (x, rw t refl, inl (cc))
  ]
  | inr n ↦
      let rest : find? q (update_where p f xs) ≡ some b = ground (arith, same x) in
      let (a, found, e) = find?-update_inv p q f same xs rest in (a, rw n found, e)
]

pub All-mem : {A : Type 0} (P : A → Type 0) (xs : List A) {a : A} → All P xs → Memᴰ a xs → P a
All-mem P (x ∷ xs) h (Memᴰ.head e) = subst P (sym e) h.0
All-mem P (x ∷ xs) h (Memᴰ.tail m) = All-mem P xs h.1 m
All-mem P [] h m = elim m [ ]

pub mem-All : {A : Type 0} (P : A → Type 0) (xs : List A) → ((a : A) → Memᴰ a xs → P a) → All P xs
mem-All P [] h = tt
mem-All P (x ∷ xs) h = (h x (Memᴰ.head refl), mem-All P xs (λ a m. h a (Memᴰ.tail m)))

-- A search behind an update of elements finds what it found before, updated where that is one of them.
pub find?-update :
    {A : Type 0} (p q : A → Bool) (f : A → A)
    → ((x : A) → q (f x) ≡ q x)
    → (xs : List A) {a : A} → find? q xs ≡ some a
    → find? q (update_where p f xs) ≡ some (if p a then f a else a)
find?-update p q f same [] h = cc
find?-update p q f same (x ∷ xs) {a} h = elim (Bool-cases (q x)) [
  | inl t ↦
      let first : some x ≡ some a = rw t at h in
      let e : x ≡ a = cc in
      subst (λ y. find? q (update_where p f (x ∷ xs)) ≡ some (if p y then f y else y)) e
        (found (p x) t)
  | inr n ↦ ground (arith, same x, find?-update p q f same xs (rw n at h))
]
  where
    found :
        (b : Bool)
        → q x ≡ true
        → (if q (if b then f x else x)
            then some (if b then f x else x)
            else find? q (update_where p f xs))
          ≡ some (if b then f x else x)
    found true t = rw (same x, t) refl
    found false t = rw t refl

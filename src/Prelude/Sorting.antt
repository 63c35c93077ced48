-- ===== src/Prelude/Sorting.antt =====
-- Insertion sort by a Boolean order: the model of the sorts of the program and of its queries.
use Prim.Native.Nat.{suc}
use mathlib.Core.Path.{◌≡◌, refl, ap, ◌∙◌}
use mathlib.Core.Logic.{◌⊎◌, inl, inr}
use mathlib.Core.Bool.{Bool, true, false}
use mathlib.Core.List.{Memᴰ, List, [], ◌∷◌, map}
use native.Mathlib.Omega.{arith}
use email_delivery_engine.Prelude.Tests.{if◌then◌else◌, Bool-cases}
use email_delivery_engine.Prelude.Lists.{length, All}

module _ {A : Type 0} (le : A → A → Bool) where
  unfoldable pub insert_by : A → List A → List A
  insert_by m [] = m ∷ []
  insert_by m (x ∷ xs) = let rest = insert_by m xs in if le m x then m ∷ x ∷ xs else x ∷ rest

  unfoldable pub sort_by : List A → List A
  unfolding insert_by
  sort_by [] = []
  sort_by (x ∷ xs) = insert_by x (sort_by xs)

  mem-insert_by : {a : A} (m : A) (xs : List A) → Memᴰ a (insert_by m xs) → (a ≡ m) ⊎ Memᴰ a xs
  unfolding insert_by
  mem-insert_by m [] (Memᴰ.head e) = inl e
  mem-insert_by m [] (Memᴰ.tail there) = inr there
  mem-insert_by {a} m (x ∷ xs) h = by_order (le m x) (mem-insert_by m xs) h
    where
      behind : (a ≡ m) ⊎ Memᴰ a xs → (a ≡ m) ⊎ Memᴰ a (x ∷ xs)
      behind (inl e) = inl e
      behind (inr t) = inr (Memᴰ.tail t)

      by_order :
          (b : Bool)
          → (Memᴰ a (insert_by m xs) → (a ≡ m) ⊎ Memᴰ a xs)
          → Memᴰ a (if b then m ∷ x ∷ xs else x ∷ insert_by m xs)
          → (a ≡ m) ⊎ Memᴰ a (x ∷ xs)
      by_order true rest (Memᴰ.head e) = inl e
      by_order true rest (Memᴰ.tail there) = inr there
      by_order false rest (Memᴰ.head e) = inr (Memᴰ.head e)
      by_order false rest (Memᴰ.tail there) = behind (rest there)

  insert_by-mem : {a : A} (m : A) (xs : List A) → (a ≡ m) ⊎ Memᴰ a xs → Memᴰ a (insert_by m xs)
  unfolding insert_by
  insert_by-mem m [] (inl e) = Memᴰ.head e
  insert_by-mem m [] (inr there) = Memᴰ.tail there
  insert_by-mem {a} m (x ∷ xs) h = by_order (le m x) (insert_by-mem m xs) h
    where
      by_order :
          (b : Bool)
          → ((a ≡ m) ⊎ Memᴰ a xs → Memᴰ a (insert_by m xs))
          → (a ≡ m) ⊎ Memᴰ a (x ∷ xs)
          → Memᴰ a (if b then m ∷ x ∷ xs else x ∷ insert_by m xs)
      by_order true rest (inl e) = Memᴰ.head e
      by_order true rest (inr there) = Memᴰ.tail there
      by_order false rest (inl e) = Memᴰ.tail (rest (inl e))
      by_order false rest (inr (Memᴰ.head e)) = Memᴰ.head e
      by_order false rest (inr (Memᴰ.tail there)) = Memᴰ.tail (rest (inr there))

  pub mem-sort_by : {a : A} (xs : List A) → Memᴰ a (sort_by xs) → Memᴰ a xs
  unfolding sort_by
  mem-sort_by [] h = h
  mem-sort_by (x ∷ xs) h = elim (mem-insert_by x (sort_by xs) h) [
    | inl e ↦ Memᴰ.head e
    | inr there ↦ Memᴰ.tail (mem-sort_by xs there)
  ]

  pub sort_by-mem : {a : A} (xs : List A) → Memᴰ a xs → Memᴰ a (sort_by xs)
  unfolding sort_by
  sort_by-mem [] h = h
  sort_by-mem (x ∷ xs) (Memᴰ.head e) = insert_by-mem x (sort_by xs) (inl e)
  sort_by-mem (x ∷ xs) (Memᴰ.tail there) = insert_by-mem x (sort_by xs) (inr (sort_by-mem xs there))

  length-insert_by : (m : A) (xs : List A) → length (insert_by m xs) ≡ suc (length xs)
  unfolding insert_by
  length-insert_by m [] = refl
  length-insert_by m (x ∷ xs) = ground (arith, length-insert_by m xs)

  pub length-sort_by : (xs : List A) → length (sort_by xs) ≡ length xs
  unfolding sort_by
  length-sort_by [] = refl
  length-sort_by (x ∷ xs) = length-insert_by x (sort_by xs) ∙ ap suc (length-sort_by xs)

  -- Every element is at most each one behind it.
  abbrev pub Ascending : List A → Type 0
  Ascending [] = Unit
  Ascending (x ∷ xs) = All (λ y. le x y ≡ true) xs × Ascending xs

  All-insert_by : (P : A → Type 0) (m : A) (xs : List A) → P m → All P xs → All P (insert_by m xs)
  unfolding insert_by
  All-insert_by P m [] p h = (p, tt)
  All-insert_by P m (x ∷ xs) p h = elim (Bool-cases (le m x)) [
    | inl t ↦ rw t (p, h)
    | inr f ↦ rw f (h.0, All-insert_by P m xs p h.1)
  ]

  module _ (total : (x y : A) → le x y ≡ false → le y x ≡ true)
      (trans : (x y z : A) → le x y ≡ true → le y z ≡ true → le x z ≡ true) where
    All-below :
        (m x : A) (xs : List A)
        → le m x ≡ true
        → All (λ y. le x y ≡ true) xs
        → All (λ y. le m y ≡ true) xs
    All-below m x [] h k = tt
    All-below m x (y ∷ ys) h k = (trans m x y h k.0, All-below m x ys h k.1)

    insert_by-Ascending : (m : A) (xs : List A) → Ascending xs → Ascending (insert_by m xs)
    unfolding insert_by
    insert_by-Ascending m [] h = (tt, tt)
    insert_by-Ascending m (x ∷ xs) h = elim (Bool-cases (le m x)) [
      | inl t ↦ rw t ((t, All-below m x xs t h.0), h)
      | inr f ↦
          rw f (
            All-insert_by (λ y. le x y ≡ true) m xs (total m x f) h.0,
            insert_by-Ascending m xs h.1,
          )
    ]

    pub sort_by-Ascending : (xs : List A) → Ascending (sort_by xs)
    unfolding sort_by
    sort_by-Ascending [] = tt
    sort_by-Ascending (x ∷ xs) = insert_by-Ascending x (sort_by xs) (sort_by-Ascending xs)

pub map-Ascending :
    {A B : Type 0} (le : A → A → Bool) (le2 : B → B → Bool) (f : A → B)
    → ((x y : A) → le x y ≡ true → le2 (f x) (f y) ≡ true)
    → (xs : List A) → Ascending le xs
    → Ascending le2 (map f xs)
map-Ascending {A = A} le le2 f keeps [] h = tt
map-Ascending {A = A} le le2 f keeps (x ∷ xs) h =
    (All-map xs h.0, map-Ascending le le2 f keeps xs h.1)
  where
    All-map : (ys : List A) → All (λ y. le x y ≡ true) ys → All (λ y. le2 (f x) y ≡ true) (map f ys)
    All-map [] k = tt
    All-map (y ∷ ys) k = (keeps x y k.0, All-map ys k.1)

-- Every element stands in this relation to each one behind it.
abbrev pub Chain : {A : Type 0} → (A → A → Type 0) → List A → Type 0
Chain P [] = Unit
Chain P (x ∷ xs) = All (P x) xs × Chain P xs

pub Ascending-Chain :
    {A : Type 0} (le : A → A → Bool) (P : A → A → Type 0)
    → ((x y : A) → le x y ≡ true → P x y)
    → (xs : List A) → Ascending le xs
    → Chain P xs
Ascending-Chain le P holds [] h = tt
Ascending-Chain {A = A} le P holds (x ∷ xs) h = (behind xs h.0, Ascending-Chain le P holds xs h.1)
  where
    behind : (ys : List A) → All (λ y. le x y ≡ true) ys → All (P x) ys
    behind [] k = tt
    behind (y ∷ ys) k = (holds x y k.0, behind ys k.1)

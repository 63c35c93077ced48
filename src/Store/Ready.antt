-- ===== src/Store/Ready.antt =====
-- Which messages `GetDeferredMessagesReady` of internal/store/store.go gives to the deferred poller.
use mathlib.Core.List.{Memᴰ}
use email_delivery_engine.Prelude.{
  ℕ, zero, suc, ◌≤◌, String, ◌≡◌, refl, sym, ap, subst, ◌⊎◌, inl, inr, Bool, true, false, ◌&&◌,
  Option, none, some, List, [], ◌∷◌, All, map, arith, leb, length, take, select,
}
use email_delivery_engine.Prelude.Members.{mem-select, mem-select_back, mem-map, All-mem, mem-All}
use email_delivery_engine.Prelude.Sorting.{
  sort_by, mem-sort_by, sort_by-mem, length-sort_by, Ascending, sort_by-Ascending, Chain,
  Ascending-Chain,
}
use email_delivery_engine.Store.{Status, Message, Database}
use email_delivery_engine.Store.Query.{is_deferred, is_due, due_by, deferred_ready}

-- A message that waits for a time that has come.
pub record IsReady (now : ℕ) (db : Database) (m : Message) : Type 0 where
  pub stored : Memᴰ m db.messages
  pub waits : m.status ≡ Status.deferred
  pub due : (t : ℕ) × (m.next_attempt_at ≡ some t) × (t ≤ now)

mem-take : {A : Type 0} (n : ℕ) (xs : List A) {a : A} → Memᴰ a (take n xs) → Memᴰ a xs
mem-take zero xs h = elim h [ ]
mem-take (suc n) [] h = h
mem-take (suc n) (x ∷ xs) (Memᴰ.head e) = Memᴰ.head e
mem-take (suc n) (x ∷ xs) (Memᴰ.tail there) = Memᴰ.tail (mem-take n xs there)

take-all : {A : Type 0} (n : ℕ) (xs : List A) → length xs ≤ n → take n xs ≡ xs
take-all zero [] h = refl
take-all zero (x ∷ xs) h = absurd (omega arith)
take-all (suc n) [] h = refl
take-all (suc n) (x ∷ xs) h = ap (λ rest. x ∷ rest) (take-all n xs (omega arith))

abbrev is_ready : ℕ → Message → Bool
is_ready now m = is_deferred m.status && is_due now m.next_attempt_at

due-time : (now : ℕ) (o : Option ℕ) → is_due now o ≡ true → (t : ℕ) × (o ≡ some t) × (t ≤ now)
due-time now none h = cc
due-time now (some t) h = (t, refl, ground arith)

deferred-status : (s : Status) → is_deferred s ≡ true → s ≡ Status.deferred
deferred-status s h = ground arith

is_ready-IsReady :
    (now : ℕ) (db : Database) (m : Message)
    → Memᴰ m db.messages
    → is_ready now m ≡ true
    → IsReady now db m
is_ready-IsReady now db m stored h = record {
  stored = stored;
  waits = deferred-status m.status (ground arith);
  due = due-time now m.next_attempt_at (ground arith);
}

taken-IsReady :
    (limit now : ℕ) (db : Database) (m : Message)
    → Memᴰ m (take limit (sort_by due_by (select (is_ready now) db.messages)))
    → IsReady now db m
taken-IsReady limit now db m h =
    let (stored, t) =
      mem-select (is_ready now) db.messages (mem-sort_by due_by _ (mem-take limit _ h)) in
    is_ready-IsReady now db m stored t

IsReady-is_ready :
    (now : ℕ) (db : Database) (m : Message) → IsReady now db m → is_ready now m ≡ true
IsReady-is_ready now db m r = let (t, e, h) = r.due in rw (r.waits, e) (ground arith)

-- Every message that waits for a time that has come is in a poll, if no more than the batch wait.
deferred_ready-complete :
    (limit now : ℕ) (db : Database) (m : Message)
    → IsReady now db m
    → length
        (select (λ (x : Message). is_deferred x.status && is_due now x.next_attempt_at) db.messages)
      ≤ limit
    → Memᴰ m.id (deferred_ready limit now db)
unfolding deferred_ready
deferred_ready-complete limit now db m r room =
    let ready = select (is_ready now) db.messages in
    let whole : take limit (sort_by due_by ready) ≡ sort_by due_by ready =
      take-all limit (sort_by due_by ready)
        (subst (λ n. n ≤ limit) (sym (length-sort_by due_by ready)) room) in
    mem-map (λ (x : Message). x.id) _
      (subst (Memᴰ m) (sym whole) (
        sort_by-mem due_by ready
          (mem-select_back (is_ready now) db.messages r.stored (IsReady-is_ready now db m r))))

take-Ascending : (n : ℕ) (xs : List Message) → Ascending due_by xs → Ascending due_by (take n xs)
take-Ascending zero xs h = tt
take-Ascending (suc n) [] h = tt
take-Ascending (suc n) (x ∷ xs) h = (All-take n xs h.0, take-Ascending n xs h.1)
  where
    All-take :
        (n : ℕ) (ys : List Message)
        → All (λ y. due_by x y ≡ true) ys
        → All (λ y. due_by x y ≡ true) (take n ys)
    All-take zero ys h = tt
    All-take (suc n) [] h = tt
    All-take (suc n) (y ∷ ys) h = (h.0, All-take n ys h.1)

-- An element of an ascending list is among its first ones, or it comes after all of them.
take-or_later :
    (n : ℕ) (xs : List Message) {m : Message}
    → Ascending due_by xs
    → Memᴰ m xs
    → Memᴰ m (take n xs) ⊎ ((length (take n xs) ≡ n) × All (λ x. due_by x m ≡ true) (take n xs))
take-or_later zero xs h there = inr (refl, tt)
take-or_later (suc n) [] h there = elim there [ ]
take-or_later (suc n) (x ∷ xs) h (Memᴰ.head e) = inl (Memᴰ.head e)
take-or_later (suc n) (x ∷ xs) {m} h (Memᴰ.tail there) = elim (take-or_later n xs h.1 there) [
  | inl t ↦ inl (Memᴰ.tail t)
  | inr (full, later) ↦ inr (ap suc full, (All-mem (λ y. due_by x y ≡ true) xs h.0 there, later))
]

-- A message that is due no later than another.
abbrev NoLater : Message → Message → Type 0
NoLater x m = (s t : ℕ) → x.next_attempt_at ≡ some s → m.next_attempt_at ≡ some t → s ≤ t

-- The messages of a poll.
pub record Batch (limit now : ℕ) (db : Database) (keys : List String) : Type 0 where
  pub messages : List Message
  pub identities : keys ≡ map (λ (m : Message). m.id) messages
  pub ready : (m : Message) → Memᴰ m messages → IsReady now db m
  pub in_order : Chain NoLater messages
  pub earliest :
      (m : Message)
      → IsReady now db m
      → Memᴰ m messages ⊎ ((length messages ≡ limit) × All (λ x. NoLater x m) messages)

due_by_total : (x y : Message) → due_by x y ≡ false → due_by y x ≡ true
due_by_total x y h = ground arith

due_by_trans : (x y z : Message) → due_by x y ≡ true → due_by y z ≡ true → due_by x z ≡ true
due_by_trans x y z h k = ground arith

due_by-NoLater : (x y : Message) → due_by x y ≡ true → NoLater x y
due_by-NoLater x y h s t e f = let below : leb s t ≡ true = rw (e, f) at h in ground arith

-- A poll gives ready messages in the order of their times, and leaves a ready message out only if it
-- is full of messages that are due no later.
pub deferred_ready-Batch :
    (limit now : ℕ) (db : Database) → Batch limit now db (deferred_ready limit now db)
unfolding deferred_ready
deferred_ready-Batch limit now db =
    let waiting = select (is_ready now) db.messages in
    let sorted = sort_by-Ascending due_by due_by_total due_by_trans waiting in
    record {
      messages = take limit (sort_by due_by waiting);
      identities = refl;
      ready = λ m h. taken-IsReady limit now db m h;
      in_order =
          Ascending-Chain due_by NoLater due_by-NoLater _
            (take-Ascending limit (sort_by due_by waiting) sorted);
      earliest = λ m r. either_way m (
          take-or_later limit (sort_by due_by waiting) sorted (
            sort_by-mem due_by waiting
              (mem-select_back (is_ready now) db.messages r.stored (IsReady-is_ready now db m r))));
    }
  where
    either_way :
        (m : Message) {xs : List Message}
        → Memᴰ m xs ⊎ ((length xs ≡ limit) × All (λ x. due_by x m ≡ true) xs)
        → Memᴰ m xs ⊎ ((length xs ≡ limit) × All (λ x. NoLater x m) xs)
    either_way m (inl there) = inl there
    either_way m {xs} (inr (full, later)) = inr (
      full,
      mem-All (λ x. NoLater x m) xs
          (λ x there. due_by-NoLater x m (All-mem (λ x. due_by x m ≡ true) xs later there)),
    )

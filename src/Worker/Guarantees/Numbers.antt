-- ===== src/Worker/Guarantees/Numbers.antt =====
-- Two things that `Process` of internal/worker/worker.go keeps of the attempts of a message: there are
-- no more of them than its attempt_count, and they bear rising numbers up to it.
use mathlib.Core.List.{append-nil}
use email_delivery_engine.Prelude.{
  ℕ, suc, ◌≤◌, ◌<◌, String, ◌≡◌, ◌≢◌, refl, sym, ap, subst, ◌∙◌, false, List, [], ◌∷◌, ◌++◌, All,
  arith, length, select, str_eq, eq_iff, eq_refl,
}
use email_delivery_engine.Prelude.Sorting.{Chain}
use email_delivery_engine.Store.{Attempt, Database}
use email_delivery_engine.Worker.Guarantees.Counts.{Ledger, Recorded}

-- The attempts of a message among some rows.
abbrev pub own_of : String → List Attempt → List Attempt
own_of key = select (λ (a : Attempt). str_eq a.message_id key)

own_of-append :
    (key : String) (xs ys : List Attempt) → own_of key (xs ++ ys) ≡ own_of key xs ++ own_of key ys
own_of-append key [] ys = refl
own_of-append key (x ∷ xs) ys = ground (arith, own_of-append key xs ys)

own_of-foreign :
    (key other : String) (xs : List Attempt)
    → other ≢ key
    → All (λ (a : Attempt). a.message_id ≡ other) xs
    → own_of key xs ≡ []
own_of-foreign key other [] ne h = refl
own_of-foreign key other (x ∷ xs) ne h =
    let differs : str_eq x.message_id key ≡ false = ground (arith, eq_iff x.message_id key, h.0) in
    rw differs (own_of-foreign key other xs ne h.1)

pub own_of-unchanged :
    (key other : String) (xs ys : List Attempt)
    → other ≢ key
    → All (λ (a : Attempt). a.message_id ≡ other) ys
    → own_of key (xs ++ ys) ≡ own_of key xs
own_of-unchanged key other xs ys ne h =
    own_of-append key xs ys
    ∙ ap (λ zs. own_of key xs ++ zs) (own_of-foreign key other ys ne h)
    ∙ append-nil (own_of key xs)

pub own_of-one :
    (xs : List Attempt) (a : Attempt)
    → own_of a.message_id (xs ++ (a ∷ [])) ≡ own_of a.message_id xs ++ (a ∷ [])
own_of-one xs a = own_of-append a.message_id xs (a ∷ []) ∙ rw (eq_refl a.message_id) refl

-- What is said of the attempts of a message themselves, with a bound on them.
record OwnLedger (Q : ℕ → List Attempt → Type 0) : Type 0 where
  widens : (m n : ℕ) (rows : List Attempt) → m ≤ n → Q m rows → Q n rows
  next :
      (n : ℕ) (rows : List Attempt) (a : Attempt)
      → a.attempt_number ≡ suc n
      → Q n rows
      → Q (suc n) (rows ++ (a ∷ []))

abbrev OfOwn : (ℕ → List Attempt → Type 0) → String → ℕ → List Attempt → Type 0
OfOwn Q key n rows = Q n (own_of key rows)

OwnLedger-Ledger : (Q : ℕ → List Attempt → Type 0) → OwnLedger Q → Ledger (OfOwn Q)
OwnLedger-Ledger Q laws = record {
  widens = λ key m n rows h held. laws.widens m n (own_of key rows) h held;
  foreign = λ key other n rows more ne h held.
      subst (Q n) (sym (own_of-unchanged key other rows more ne h)) held;
  own = λ n rows a e held.
      subst (Q (suc n)) (sym (own_of-one rows a)) (laws.next n (own_of a.message_id rows) a e held);
}

abbrev AtMost : ℕ → List Attempt → Type 0
AtMost n rows = length rows ≤ n

pub length-one : (rows : List Attempt) (a : Attempt) → length (rows ++ (a ∷ [])) ≡ suc (length rows)
length-one [] a = refl
length-one (x ∷ rows) a = ap suc (length-one rows a)

AtMost-OwnLedger : OwnLedger AtMost
AtMost-OwnLedger = record {
  widens = λ m n rows h held. omega arith;
  next = λ n rows a e held. subst (λ k. k ≤ suc n) (sym (length-one rows a)) (omega arith);
}

-- Each attempt bears a higher number than those recorded before it, and none one above the bound.
abbrev Rising : ℕ → List Attempt → Type 0
Rising n rows =
    Chain (λ (a b : Attempt). a.attempt_number < b.attempt_number) rows
    × All (λ (a : Attempt). a.attempt_number ≤ n) rows

All-next :
    {P Q : Attempt → Type 0} (rows : List Attempt) (a : Attempt)
    → ((x : Attempt) → P x → Q x)
    → Q a
    → All P rows
    → All Q (rows ++ (a ∷ []))
All-next [] a f q h = (q, tt)
All-next (x ∷ rows) a f q h = (f x h.0, All-next rows a f q h.1)

All-widens :
    (m n : ℕ) (rows : List Attempt)
    → m ≤ n
    → All (λ (a : Attempt). a.attempt_number ≤ m) rows
    → All (λ (a : Attempt). a.attempt_number ≤ n) rows
All-widens m n [] h held = tt
All-widens m n (x ∷ rows) h held = let below = held.0 in (omega arith, All-widens m n rows h held.1)

Rising-next :
    (n : ℕ) (rows : List Attempt) (a : Attempt)
    → a.attempt_number ≡ suc n
    → Rising n rows
    → Rising (suc n) (rows ++ (a ∷ []))
Rising-next n [] a e h = ((tt, tt), (omega arith, tt))
Rising-next n (x ∷ rows) a e h =
    let below = h.1.0 in
    let (rest, bound) = Rising-next n rows a e (h.0.1, h.1.1) in
    ((All-next rows a (λ y k. k) (omega arith) h.0.0, rest), (omega arith, bound))

Rising-OwnLedger : OwnLedger Rising
Rising-OwnLedger = record {
  widens = λ m n rows h held. (held.0, All-widens m n rows h held.1);
  next = Rising-next;
}

abbrev pub tries : String → Database → ℕ
tries key db = length (own_of key db.attempts)

-- No message has more attempts recorded than its row counts.
abbrev pub Counted : Database → Type 0
Counted = Recorded (OfOwn AtMost)

pub AtMost-Ledger : Ledger (OfOwn AtMost)
AtMost-Ledger = OwnLedger-Ledger AtMost AtMost-OwnLedger

-- The attempts of each message bear rising numbers up to the count of its row.
abbrev pub Numbered : Database → Type 0
Numbered = Recorded (OfOwn Rising)

pub Rising-Ledger : Ledger (OfOwn Rising)
Rising-Ledger = OwnLedger-Ledger Rising Rising-OwnLedger

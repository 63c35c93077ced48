-- ===== src/Interleaving/Team.antt =====
-- Calls that run at the same time, in any order of their statements. A call relies on the others, and
-- each of its statements is guaranteed to them.
use email_delivery_engine.Prelude.{ℕ, zero, suc, List, [], ◌∷◌, All}
use email_delivery_engine.Runtime.{World, Result}
use email_delivery_engine.Runtime.Thread.{Thread, ended, statement}
use email_delivery_engine.Interleaving.{State, move, runs}
use email_delivery_engine.Interleaving.Safe.{Safe, Safe-rely}

-- The parts that calls have, by what each relies on, guarantees and ends with.
pub record Parts (I R : Type 0) : Type 1 where
  pub Rely : I → World R → World R → Type 0
  pub Guar : I → World R → World R → Type 0
  pub Post : I → Result Unit → World R → Type 0
  pub rely_refl : (i : I) (w : World R) → Rely i w w
  pub rely_trans : (i : I) (u v w : World R) → Rely i u v → Rely i v w → Rely i u w
  pub stable : (i : I) (r : Result Unit) (v w : World R) → Rely i v w → Post i r v → Post i r w

module _ {I R : Type 0} (parts : Parts I R) where
  -- One call for each part, each safe from here on.
  abbrev pub Fits : List I → List (Thread R Unit) → World R → Type 0
  Fits [] [] w = Unit
  Fits [] (t ∷ ts) w = ⊥
  Fits (i ∷ is) [] w = ⊥
  Fits (i ∷ is) (t ∷ ts) w = Safe (parts.Rely i) (parts.Guar i) (parts.Post i) t w × Fits is ts w

  -- What j guarantees is what i relies on.
  abbrev pub Suits : I → I → Type 0
  Suits i j = (v w : World R) → parts.Guar j v w → parts.Rely i v w

  abbrev pub Together : List I → Type 0
  Together [] = Unit
  Together (i ∷ is) = All (λ j. Suits i j) is × All (λ j. Suits j i) is × Together is

  -- A move, as a bystander sees it.
  move-Rely :
      (h : I) (is : List I) (n : ℕ) (ts : List (Thread R Unit)) (w : World R)
      → All (λ j. Suits h j) is
      → Fits is ts w
      → parts.Rely h w (move n ts w).1
  unfolding move Safe
  move-Rely h [] n [] w suits fits = parts.rely_refl h w
  move-Rely h [] n (t ∷ ts) w suits fits = elim fits [ ]
  move-Rely h (i ∷ is) zero [] w suits fits = elim fits [ ]
  move-Rely h (i ∷ is) (suc n) [] w suits fits = elim fits [ ]
  move-Rely h (i ∷ is) zero (ended r ∷ ts) w suits fits = parts.rely_refl h w
  move-Rely h (i ∷ is) zero (statement act next ∷ ts) w suits fits =
      suits.0 w (act w) (fits.0 w (parts.rely_refl i w)).0
  move-Rely h (i ∷ is) (suc n) (t ∷ ts) w suits fits = move-Rely h is n ts w suits.1 fits.1

  Fits-moved :
      (i : I) (is : List I) (ts : List (Thread R Unit)) (v w : World R)
      → All (λ j. Suits j i) is
      → parts.Guar i v w
      → Fits is ts v
      → Fits is ts w
  Fits-moved i [] [] v w suits does fits = tt
  Fits-moved i [] (t ∷ ts) v w suits does fits = elim fits [ ]
  Fits-moved i (j ∷ is) [] v w suits does fits = elim fits [ ]
  Fits-moved i (j ∷ is) (t ∷ ts) v w suits does fits = (
    Safe-rely (parts.Rely j) (parts.Guar j) (parts.rely_trans j) (parts.Post j) (parts.stable j) t v
        w (suits.0 v w does) fits.0,
    Fits-moved i is ts v w suits.1 does fits.1,
  )

  Fits-move :
      (is : List I) (n : ℕ) (ts : List (Thread R Unit)) (w : World R)
      → Together is
      → Fits is ts w
      → Fits is (move n ts w).0 (move n ts w).1
  unfolding move Safe
  Fits-move [] n [] w together fits = tt
  Fits-move [] n (t ∷ ts) w together fits = elim fits [ ]
  Fits-move (i ∷ is) zero [] w together fits = elim fits [ ]
  Fits-move (i ∷ is) (suc n) [] w together fits = elim fits [ ]
  Fits-move (i ∷ is) zero (ended r ∷ ts) w together fits = fits
  Fits-move (i ∷ is) zero (statement act next ∷ ts) w together fits =
      let (does, rest) = fits.0 w (parts.rely_refl i w) in
      (rest, Fits-moved i is ts w (act w) together.1 does fits.1)
  Fits-move (i ∷ is) (suc n) (t ∷ ts) w together fits = (
    Safe-rely (parts.Rely i) (parts.Guar i) (parts.rely_trans i) (parts.Post i) (parts.stable i) t w
        (move n ts w).1 (move-Rely i is n ts w together.0 fits.1) fits.0,
    Fits-move is n ts w together.2 fits.1,
  )

  -- Calls that suit each other stay safe, in any order of their statements.
  pub runs-Fits :
      (schedule : List ℕ) (is : List I) (s : State R)
      → Together is
      → Fits is s.threads s.world
      → Fits is (runs schedule s).threads (runs schedule s).world
  unfolding runs
  runs-Fits [] is s together fits = fits
  runs-Fits (n ∷ ns) is s together fits =
      runs-Fits ns is _ together (Fits-move is n s.threads s.world together fits)

  -- What a bystander sees of them.
  pub runs-Rely :
      (h : I) (schedule : List ℕ) (is : List I) (s : State R)
      → All (λ j. Suits h j) is
      → Together is
      → Fits is s.threads s.world
      → parts.Rely h s.world (runs schedule s).world
  unfolding runs
  runs-Rely h [] is s suits together fits = parts.rely_refl h s.world
  runs-Rely h (n ∷ ns) is s suits together fits =
      parts.rely_trans h s.world (move n s.threads s.world).1 _
        (move-Rely h is n s.threads s.world suits fits)
        (runs-Rely h ns is _ suits together (Fits-move is n s.threads s.world together fits))

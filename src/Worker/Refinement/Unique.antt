-- ===== src/Worker/Refinement/Unique.antt =====
-- What `Process` in internal/worker/worker.go decides by is unique: the route and the limiter's answer.
use email_delivery_engine.Prelude.{
  ℕ, suc, String, ◌≡◌, refl, subst, inl, inr, true, Option, none, some, List, [], ◌∷◌, arith,
}
use email_delivery_engine.Store.{Message, Database, ThrottleRule, Route, IpPool}
use email_delivery_engine.Route.{Decision, is_empty, pinned_route, shared_route}
use email_delivery_engine.Route.Choice.{ChosenFrom}
use email_delivery_engine.Runtime.{Env, Redis}
use email_delivery_engine.Worker.Pipeline.{}
use email_delivery_engine.Worker.Refinement.Readings.{
  hit_key, after_hit, Checked, all_checked, passed_over, let_through, held_back,
}

pub ChosenFrom-unique :
    (own : Option IpPool) (db : Database) (routes : List Route) (d d' : Decision)
    → ChosenFrom own db routes d
    → ChosenFrom own db routes d'
    → d ≡ d'
ChosenFrom-unique own db routes d d' (inl e) (inl e') = cc
ChosenFrom-unique own db routes d d' (inl e) (inr (e', f')) = cc
ChosenFrom-unique own db routes d d' (inr (e, f)) (inl e') = cc
ChosenFrom-unique own db routes d d' (inr (e, f)) (inr (e', f')) = cc

pub no_choice :
    (own : Option IpPool) (db : Database) (routes : List Route) (d : Decision)
    → is_empty routes ≡ true
    → ¬ ChosenFrom own db routes d
unfolding pinned_route shared_route
no_choice none db [] d e (inl h) = cc
no_choice (some p) db [] d e (inl h) = cc
no_choice own db [] d e (inr (h, h')) = cc
no_choice own db (r ∷ rs) d e h = cc

module _ {R : Type 0} (redis : Redis R) (env : Env) (msg : Message) (d : Decision) where
  -- The limiter gives one answer.
  pub Checked-unique :
      (rs : List ThrottleRule) (n : ℕ) (s : R) (v v' : Option String)
      → Checked redis env msg d rs n s v
      → Checked redis env msg d rs n s v'
      → v ≡ v'
  Checked-unique [] n s v v' (all_checked _ _) (all_checked _ _) = refl
  Checked-unique (r ∷ rs) n s v v' (passed_over _ _ _ _ _ skip h) (passed_over _ _ _ _ _ _ h') =
      Checked-unique rs n s v v' h h'
  Checked-unique (r ∷ rs) n s v v' (passed_over _ _ _ _ _ skip h)
        (let_through _ _ _ _ _ hits hit _ _ _) =
      cc (skip, hit)
  Checked-unique (r ∷ rs) n s v v' (passed_over _ _ _ _ _ skip h) (held_back _ _ _ _ hits hit _ _) =
      cc (skip, hit)
  Checked-unique (r ∷ rs) n s v v' (let_through _ _ _ _ _ hits hit _ _ _)
        (passed_over _ _ _ _ _ skip h) =
      cc (skip, hit)
  Checked-unique (r ∷ rs) n s v v' (let_through _ _ _ _ _ hits hit e low h)
        (let_through _ _ _ _ _ hits' _ e' low' h') =
      let same : hits' ≡ hits = cc (e, e') in
      Checked-unique rs _ _ v v' h (
        subst (λ k. Checked redis env msg d rs (suc n) (after_hit redis (hit_key env r n) k s) v')
          same h')
  Checked-unique (r ∷ rs) n s v v' (let_through _ _ _ _ _ hits hit e low h)
        (held_back _ _ _ _ hits' _ e' high) =
      let same : hits' ≡ hits = cc (e, e') in absurd (ground (arith, low, high, same))
  Checked-unique (r ∷ rs) n s v v' (held_back _ _ _ _ hits hit e high)
        (passed_over _ _ _ _ _ skip h) =
      cc (skip, hit)
  Checked-unique (r ∷ rs) n s v v' (held_back _ _ _ _ hits hit e high)
        (let_through _ _ _ _ _ hits' _ e' low h) =
      let same : hits' ≡ hits = cc (e, e') in absurd (ground (arith, low, high, same))
  Checked-unique (r ∷ rs) n s v v' (held_back _ _ _ _ _ _ _ _) (held_back _ _ _ _ _ _ _ _) = refl

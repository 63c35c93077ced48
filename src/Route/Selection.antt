-- ===== src/Route/Selection.antt =====
-- What `Select` in internal/route/route.go chooses, and when it fails.
use mathlib.Core.List.{Memᴰ}
use email_delivery_engine.Prelude.{
  ℕ, ◌≡◌, refl, sym, ap, subst, ◌∙◌, inl, inr, true, Option, none, some, List, [], ◌∷◌, arith,
  Bool-cases, Option-cases, ◌==◌,
}
use email_delivery_engine.Store.{IpPool, Route}
use email_delivery_engine.Store.Query.{pool_is}
use email_delivery_engine.Runtime.{}
use email_delivery_engine.Runtime.Rules.{}
use email_delivery_engine.Route.{
  Decision, pinned_route, shared_by_id, pool_of_route, shared_route, decide_with,
}

pool_is-eq : (id : ℕ) (o : Option ℕ) → pool_is id o ≡ true → o ≡ some id
pool_is-eq id none h = cc
pool_is-eq id (some p) h = ground arith

pub pinned_route-some :
    (p : IpPool) (rs : List Route) (d : Decision)
    → pinned_route p rs ≡ some d
    → (d.pool ≡ p) × Memᴰ d.route rs × (d.route.ip_pool_id ≡ some p.id)
unfolding pinned_route
pinned_route-some p [] d h = cc
pinned_route-some p (r ∷ rs) d h = elim (Bool-cases (pool_is p.id r.ip_pool_id)) [
  | inl t ↦
      let e : some (record { route = r; pool = p }) ≡ some d = rw t at h in
      let route_eq : r ≡ d.route = ground arith in
      (
        ground arith,
        Memᴰ.head (sym route_eq),
        ap (λ (r : Route). r.ip_pool_id) (sym route_eq) ∙ pool_is-eq p.id r.ip_pool_id t,
      )
  | inr f ↦
      let (pool_eq, there, linked) = pinned_route-some p rs d (rw f at h) in
      (pool_eq, Memᴰ.tail there, linked)
]

shared_by_id-some :
    (ps : List IpPool) (id : ℕ) (p : IpPool) → shared_by_id ps id ≡ some p → Memᴰ p ps × (p.id ≡ id)
unfolding shared_by_id
shared_by_id-some [] id p h = cc
shared_by_id-some (x ∷ ps) id p h = elim (Option-cases (shared_by_id ps id)) [
  | inr (q, e) ↦
      let (there, same) = shared_by_id-some ps id q e in
      let q_eq : q ≡ p = ground arith in
      (Memᴰ.tail (subst (λ (y : IpPool). Memᴰ y ps) q_eq there), ground arith)
  | inl e ↦ elim (Bool-cases (x.id == id)) [
    | inl t ↦ let x_eq : x ≡ p = ground arith in (Memᴰ.head (sym x_eq), ground arith)
    | inr f ↦ absurd (ground arith)
  ]
]

-- The route is one of the routes, the pool is one of the pools, and the route is on the pool.
abbrev pub IsOnPool : List IpPool → List Route → Decision → Type 0
IsOnPool ps rs d = Memᴰ d.route rs × Memᴰ d.pool ps × (d.route.ip_pool_id ≡ some d.pool.id)

pool_of_route-some :
    (ps : List IpPool) (o : Option ℕ) (p : IpPool)
    → pool_of_route ps o ≡ some p
    → Memᴰ p ps × (o ≡ some p.id)
pool_of_route-some ps none p h = cc
pool_of_route-some ps (some id) p h =
    let (there, same) = shared_by_id-some ps id p h in (there, ap some (sym same))

decide_with-some :
    (ps : List IpPool) (r : Route) (rs : List Route) (d : Decision) (o : Option IpPool)
    → pool_of_route ps r.ip_pool_id ≡ o
    → decide_with o r (shared_route ps rs) ≡ some d
    → (shared_route ps rs ≡ some d → IsOnPool ps rs d)
    → IsOnPool ps (r ∷ rs) d
decide_with-some ps r rs d none e h ih = let (m, q, linked) = ih h in (Memᴰ.tail m, q, linked)
decide_with-some ps r rs d (some p) e h ih =
    let (there, linked) = pool_of_route-some ps r.ip_pool_id p e in
    let route_eq : r ≡ d.route = ground arith in
    let pool_eq : p ≡ d.pool = ground arith in
    (
      Memᴰ.head (sym route_eq),
      subst (λ (y : IpPool). Memᴰ y ps) pool_eq there,
      ap (λ (y : Route). y.ip_pool_id) (sym route_eq)
          ∙ linked
          ∙ ap (λ (y : IpPool). some y.id) pool_eq,
    )

pub shared_route-some :
    (ps : List IpPool) (rs : List Route) (d : Decision)
    → shared_route ps rs ≡ some d
    → IsOnPool ps rs d
unfolding shared_route
shared_route-some ps [] d h = cc
shared_route-some ps (r ∷ rs) d h =
    decide_with-some ps r rs d (pool_of_route ps r.ip_pool_id) refl h (shared_route-some ps rs d)

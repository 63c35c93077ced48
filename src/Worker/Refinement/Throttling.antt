-- ===== src/Worker/Refinement/Throttling.antt =====
-- What the limiter answers when `checkThrottles` of internal/worker/worker.go asks it.
use Prim.Native.String.{◌++◌ as append_text}
use email_delivery_engine.Runtime.Interface.{acts}
use email_delivery_engine.Throttle.{commands}
use email_delivery_engine.Prelude.{
  ℕ, suc, String, ◌≡◌, refl, sym, ap, subst, ◌∙◌, Option-cases, inl, inr, Option, none, some, List,
  [], ◌∷◌, arith, Bool-cases, ◌==◌, if◌then◌else◌,
}
use email_delivery_engine.Prelude.Int.{ℤ, pos, leb_ℤ}
use email_delivery_engine.Store.{Message, Database, ThrottleRule}
use email_delivery_engine.Throttle.{Verdict, throttle_key, bucket_of, incr, expire, allow}
use email_delivery_engine.Route.{Decision}
use email_delivery_engine.Runtime.{Env, Redis, World, ok, Action, pure, ◌>>=◌, wrapping, query, now}
use email_delivery_engine.Runtime.Rules.{>>=-ok, load-ok}
use email_delivery_engine.Worker.Pipeline.{applies, check_rules, check_throttles}
use email_delivery_engine.Worker.Refinement.Readings.{
  Checked, all_checked, passed_over, let_through, held_back, hit_key, after_hit,
}

module _ {R : Type 0} (redis : Redis R) (env : Env) where
  allowed_of : {a b : Verdict} → ok a ≡ ok b → b.allowed ≡ a.allowed
  allowed_of {a} {b} e = let same : a ≡ b = cc e in ap (λ (v : Verdict). v.allowed) (sym same)

  -- What stands behind a verdict: the number that INCR replied with.
  record Hit (scope scope_key : String) (limit : ℤ) (w after : World R) (verdict : Verdict)
      : Type 0 where
    pub hits : ℕ
    pub replied :
        (redis.incr (throttle_key scope scope_key (bucket_of (env.clock w.tick))) w.redis).0
        ≡ some hits
    pub by_limit : verdict.allowed ≡ leb_ℤ (pos hits) limit
    pub next_tick : after.tick ≡ suc w.tick
    pub next_redis :
        after.redis
        ≡ after_hit redis (throttle_key scope scope_key (bucket_of (env.clock w.tick))) hits w.redis

  allow-Hit :
      (scope scope_key : String) (limit : ℤ) (w : World R) (verdict : Verdict)
      → (allow (commands redis) (acts env) scope scope_key limit w).0 ≡ ok verdict
      → Hit scope scope_key limit w
          (allow (commands redis) (acts env) scope scope_key limit w).1
          verdict
  unfolding allow ◌>>=◌ wrapping now incr expire
  allow-Hit scope scope_key limit w verdict h =
      let key : String = throttle_key scope scope_key (bucket_of (env.clock w.tick)) in
      elim (Option-cases (redis.incr key w.redis).0) [
        | inl e ↦ cc (rw e at h)
        | inr (n, e) ↦ elim (Bool-cases (n == 1)) [
          | inr f ↦
              let v : ok (record { allowed = leb_ℤ (pos n) limit; count = n; limit = limit })
                  ≡ ok verdict =
                rw (e, f) at h in
              record {
                hits = n;
                replied = e;
                by_limit = allowed_of v;
                next_tick = rw (e, f) refl;
                next_redis = rw (e, f) refl;
              }
          | inl t ↦ elim (Bool-cases (redis.expire key 120 (redis.incr key w.redis).1).0) [
            | inr g ↦ cc (rw (e, t, g) at h)
            | inl g ↦
                let v : ok (record { allowed = leb_ℤ (pos n) limit; count = n; limit = limit })
                    ≡ ok verdict =
                  rw (e, t, g) at h in
                record {
                  hits = n;
                  replied = e;
                  by_limit = allowed_of v;
                  next_tick = rw (e, t, g) refl;
                  next_redis = rw (e, t, g) refl;
                }
          ]
        ]
      ]

module _ {R : Type 0} (redis : Redis R) (env : Env) (msg : Message) (d : Decision) where
  check_rules-Checked :
      (rs : List ThrottleRule) (n : ℕ) (s : R) (w : World R) (verdict : Option String)
      → w.tick ≡ n
      → w.redis ≡ s
      → (check_rules (commands redis) (acts env) rs msg d w).0 ≡ ok verdict
      → Checked redis env msg d rs n s verdict
  unfolding check_rules
  check_rules-Checked [] n s w verdict at_tick at_redis h =
      subst (Checked redis env msg d [] n s) (the_verdict h) (all_checked n s)
    where
      the_verdict : ok none ≡ ok verdict → none ≡ verdict
      the_verdict e = cc e
  check_rules-Checked (r ∷ rs) n s w verdict at_tick at_redis h =
      elim (Bool-cases (applies r msg d)) [
        | inr f ↦
            passed_over r rs n s verdict f
              (check_rules-Checked rs n s w verdict at_tick at_redis (rw f at h))
        | inl t ↦
            let ask : Action R Verdict =
              allow (commands redis) (acts env) r.scope r.scope_key r.messages_per_minute in
            let (answer, e, f) =
              >>=-ok ask
                (λ (answer : Verdict).
                  if answer.allowed
                  then check_rules (commands redis) (acts env) rs msg d
                  else pure (some (append_text r.scope (append_text ":" r.scope_key))))
                w (rw t at h) in
            let hit = allow-Hit redis env r.scope r.scope_key r.messages_per_minute w answer e in
            let replied : (redis.incr (hit_key env r n) s).0 ≡ some hit.hits =
              rw (← at_tick, ← at_redis) hit.replied in
            elim (Bool-cases answer.allowed) [
              | inl free ↦
                  let_through r rs n s verdict hit.hits t replied
                    (ground (arith, hit.by_limit, free))
                    (check_rules-Checked rs (suc n) (after_hit redis (hit_key env r n) hit.hits s)
                      (ask w).1 verdict (hit.next_tick ∙ ap suc at_tick)
                      (rw (← at_tick, ← at_redis) hit.next_redis) (rw free at f))
              | inr over ↦
                  subst (Checked redis env msg d (r ∷ rs) n s) (the_verdict r (rw over at f))
                    (held_back r rs n s hit.hits t replied (ground (arith, hit.by_limit, over)))
            ]
      ]
    where
      the_verdict :
          (r : ThrottleRule)
          → ok (some (append_text r.scope (append_text ":" r.scope_key))) ≡ ok verdict
          → some (append_text r.scope (append_text ":" r.scope_key)) ≡ verdict
      the_verdict r e = cc e

  pub check_throttles-Checked :
      (n : ℕ) (s : R) (w : World R) (verdict : Option String)
      → w.tick ≡ n
      → w.redis ≡ s
      → (check_throttles (commands redis) (acts env) msg d w).0 ≡ ok verdict
      → Checked redis env msg d w.db.throttle_rules (suc n) s verdict
  unfolding check_throttles wrapping query
  check_throttles-Checked n s w verdict at_tick at_redis h =
      let load : Action R (List ThrottleRule) =
        wrapping "load throttle rules" (query env (λ _ (db : Database). db.throttle_rules)) in
      let (rules, e, f) =
        >>=-ok load (λ rules. check_rules (commands redis) (acts env) rules msg d) w h in
      let read = load-ok env "load throttle rules" (λ _ (db : Database). db.throttle_rules) w e in
      subst (λ rs. Checked redis env msg d rs (suc n) s verdict) read
        (check_rules-Checked rules (suc n) s (load w).1 verdict (ap suc at_tick) at_redis f)

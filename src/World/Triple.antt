-- ===== src/World/Triple.antt =====
-- What a method ensures of its result: one rule for each way to build a method.
use reward_mservice.Common.{
  ℕ, ◌+◌, Bool, false, true, Option, none, some, ◌≡◌, refl, if◌then◌else◌, inl, inr,
}
use reward_mservice.Errs.{Err, driver}
use reward_mservice.World.State.{Tables, World, Env}
use reward_mservice.World.Action.{
  Result, ok, err, M, pure, throw, require, or_else, ◌>>=◌, throw_if, query, execute, counted,
  transaction,
}
use reward_mservice.World.Keeps.{Invariant, Keeps, IsMonotone, Above, grown}
use reward_mservice.World.Transactions.{transaction-cases}

abbrev pub Post : {A : Type 0} → (A → Invariant) → Invariant → Result A × World → Type 0
Post Q E (ok a, w) = Q a w.tables w.next_id
Post Q E (err e, w) = E w.tables w.next_id

-- From `P`, a result `a` of `m` has `Q a`, and after an error there is `E`.
pub record Triple {A : Type 0} (P : Invariant) (m : M A) (Q : A → Invariant) (E : Invariant)
    : Type 0 where
  pub at : (env : Env) (w : World) → P w.tables w.next_id → Post Q E (m env w)

module _ {A : Type 0} (P : Invariant) where
  keeps_Post : (r : Result A) (w : World) → P w.tables w.next_id → Post (λ _. P) P (r, w)
  keeps_Post (ok a) w h = h
  keeps_Post (err e) w h = h

  post_keeps : (r : Result A) (w : World) → Post (λ _. P) P (r, w) → P w.tables w.next_id
  post_keeps (ok a) w h = h
  post_keeps (err e) w h = h

  query-Post :
      (b : Bool) (e : Err) (f : Tables → A) (w : World) (v : A)
      → f w.tables ≡ v
      → P w.tables w.next_id
      → Post (λ a t n. P t n × (f t ≡ a)) P ((if b then err e else ok v), w)
  query-Post true e f w v same h = h
  query-Post false e f w v same h = (h, same)

  require-Post :
      (o : Option A) (e : Err) (w : World)
      → P w.tables w.next_id
      → Post
          (λ a t n. P t n × (o ≡ some a))
          P
          (elim o as (λ _. Result A) [ none ↦ err e | some a ↦ ok a ], w)
  require-Post none e w h = h
  require-Post (some a) e w h = (h, refl)

throw_if_Post :
    (P : Invariant) (b : Bool) (e : Err) (w : World)
    → P w.tables w.next_id
    → Post {A = Unit {0}} (λ _ t n. P t n × (b ≡ false)) P ((if b then err e else ok tt), w)
throw_if_Post P true e w h = h
throw_if_Post P false e w h = (h, refl)

module _ {A : Type 0} (Q : A → Invariant) (E : Invariant) where
  or_else-Post :
      (r : Result A) (w : World) (f : Err → Err)
      → Post Q E (r, w)
      → Post Q E (elim r as (λ _. Result A × World) [ ok a ↦ (ok a, w) | err e ↦ (err (f e), w) ])
  or_else-Post (ok a) w f h = h
  or_else-Post (err e) w f h = h

  bind-Post :
      {B : Type 0} (R : B → Invariant) (f : A → M B) (r : Result A) (env : Env) (w : World)
      → ((a : A) → Triple (Q a) (f a) R E)
      → Post Q E (r, w)
      → Post R E (elim r as (λ _. Result B × World) [ ok a ↦ f a env w | err e ↦ (err e, w) ])
  bind-Post R f (ok a) env w k h = (k a).at env w h
  bind-Post R f (err e) env w k h = h

  weaken-Post :
      (Q' : A → Invariant) (E' : Invariant) (r : Result A) (w : World)
      → ((a : A) (t : Tables) (n : ℕ) → Q a t n → Q' a t n)
      → ((t : Tables) (n : ℕ) → E t n → E' t n)
      → Post Q E (r, w)
      → Post Q' E' (r, w)
  weaken-Post Q' E' (ok a) w hq he h = hq a w.tables w.next_id h
  weaken-Post Q' E' (err e) w hq he h = he w.tables w.next_id h

module _ {A : Type 0} {P : Invariant} where
  pub Triple-Keeps : (m : M A) → Keeps P m → Triple P m (λ _. P) P
  Triple-Keeps m k = record {
    at = λ env w h. let (r, w') = m env w in keeps_Post P r w' (k.at env w h);
  }

  pub Keeps-Triple : (m : M A) → Triple P m (λ _. P) P → Keeps P m
  Keeps-Triple m k = record {
    at = λ env w h. let (r, w') = m env w in post_keeps P r w' (k.at env w h);
  }

  pub Triple-query : (f : Tables → A) → Triple P (query f) (λ a t n. P t n × (f t ≡ a)) P
  unfolding query
  Triple-query f = record {
    at = λ env w h. query-Post P (env.fails w.calls) driver f (counted w) (f w.tables) refl h;
  }

  pub Triple-require :
      (o : Option A) (e : Err) → Triple P (require o e) (λ a t n. P t n × (o ≡ some a)) P
  Triple-require o e = record { at = λ env w h. require-Post P o e w h }

pub Triple-throw_if :
    {P : Invariant} (b : Bool) (e : Err) → Triple P (throw_if b e) (λ _ t n. P t n × (b ≡ false)) P
Triple-throw_if {P} b e = record { at = λ env w h. throw_if_Post P b e w h }

module _ {A : Type 0} {P E : Invariant} {Q : A → Invariant} where
  pub Triple-or_else : (m : M A) (f : Err → Err) → Triple P m Q E → Triple P (or_else m f) Q E
  Triple-or_else m f k = record {
    at = λ env w h. let (r, w') = m env w in or_else-Post Q E r w' f (k.at env w h);
  }

  pub Triple-bind :
      {B : Type 0} {R : B → Invariant} (m : M A) (f : A → M B)
      → Triple P m Q E
      → ((a : A) → Triple (Q a) (f a) R E)
      → Triple P (m >>= f) R E
  Triple-bind {R = R} m f km kf = record {
    at = λ env w h. let (r, w') = m env w in bind-Post Q E R f r env w' kf (km.at env w h);
  }

  pub Triple-weaken :
      {Q' : A → Invariant} {E' : Invariant} (m : M A)
      → Triple P m Q E
      → ((a : A) (t : Tables) (n : ℕ) → Q a t n → Q' a t n)
      → ((t : Tables) (n : ℕ) → E t n → E' t n)
      → Triple P m Q' E'
  Triple-weaken {Q' = Q'} {E' = E'} m k hq he = record {
    at = λ env w h. let (r, w') = m env w in weaken-Post Q E Q' E' r w' hq he (k.at env w h);
  }

-- The same with what holds after an error left open.
abbrev pub Implies : Invariant → Invariant → Type 0
Implies P E = (t : Tables) (n : ℕ) → P t n → E t n

module _ {P E : Invariant} (weak : Implies P E) where
  pub Triple-throw_if_to :
      (b : Bool) (e : Err) → Triple P (throw_if b e) (λ _ t n. P t n × (b ≡ false)) E
  Triple-throw_if_to b e = Triple-weaken (throw_if b e) (Triple-throw_if b e) (λ a t n h. h) weak

module _ {A : Type 0} {P E : Invariant} (weak : Implies P E) where
  pub Triple-query_to : (f : Tables → A) → Triple P (query f) (λ a t n. P t n × (f t ≡ a)) E
  Triple-query_to f = Triple-weaken (query f) (Triple-query f) (λ a t n h. h) weak

  pub Triple-require_to :
      (o : Option A) (e : Err) → Triple P (require o e) (λ a t n. P t n × (o ≡ some a)) E
  Triple-require_to o e = Triple-weaken (require o e) (Triple-require o e) (λ a t n h. h) weak

  pub Triple-Keeps_to : (m : M A) → Keeps P m → Triple P m (λ _. P) E
  Triple-Keeps_to m k = Triple-weaken m (Triple-Keeps m k) (λ a t n h. h) weak

module _ {A : Type 0} {P E : Invariant} {Q : A → Invariant} where
  pub Triple-pure : (a : A) → Implies P (Q a) → Triple P (pure a) Q E
  Triple-pure a imp = record { at = λ env w h. imp w.tables w.next_id h }

execute-Post :
    (P E : Invariant) (Q : Invariant) (b : Bool) (f : Tables → Tables) (w : World)
    → ((t : Tables) (n : ℕ) → P t n → Q (f t) n)
    → Implies P E
    → P w.tables w.next_id
    → Post {A = Unit {0}}
        (λ _. Q)
        E
        (if b
          then (err driver, counted w)
          else (ok tt, record w { tables = f w.tables; calls = w.calls + 1 }))
execute-Post P E Q true f w k weak h = weak w.tables w.next_id h
execute-Post P E Q false f w k weak h = k w.tables w.next_id h

pub Triple-execute :
    (P E : Invariant) (Q : Invariant) (f : Tables → Tables)
    → ((t : Tables) (n : ℕ) → P t n → Q (f t) n)
    → Implies P E
    → Triple P (execute f) (λ _. Q) E
unfolding execute
Triple-execute P E Q f k weak = record {
  at = λ env w h. execute-Post P E Q (env.fails w.calls) f w k weak h;
}

failed-Post :
    {A : Type 0} (P E : Invariant) (Q : A → Invariant) (e : Err) (out : Result A × World)
    → out.0 ≡ err e
    → P out.1.tables out.1.next_id
    → Implies P E
    → Post Q E out
failed-Post P E Q e (ok a, w) failed h weak = cc
failed-Post P E Q e (err f, w) failed h weak = weak w.tables w.next_id h

-- A transaction ensures what its body ensures when it succeeds; an error takes everything back but
-- the ids.
pub Triple-transaction :
    {A : Type 0} {P : Invariant} {Q : A → Invariant} (body : M A)
    → IsMonotone P
    → ((bound : ℕ) → Keeps (Above bound) body)
    → ((env : Env) (w w' : World) (a : A)
        → P w.tables w.next_id
        → body env w ≡ (ok a, w')
        → Q a w'.tables w'.next_id)
    → Triple P (transaction body) Q P
Triple-transaction {P = P} {Q = Q} body mono grows k = record {
  at = λ env w h. elim (transaction-cases body env w) [
    | inl c ↦ rw c.result (k env (counted w) c.after c.value h c.ran)
    | inr r ↦
        failed-Post P P Q r.error (transaction body env w) r.failed
          (rw r.tables (mono.at w.tables w.next_id _ (grown body mono grows env w r) h))
          (λ t n held. held)
  ];
}

if-Post :
    {A : Type 0} (Q : A → Invariant) (E : Invariant) (b : Bool) (x y : Result A × World)
    → (b ≡ true → Post Q E x)
    → (b ≡ false → Post Q E y)
    → Post Q E (if b then x else y)
if-Post Q E true x y hx hy = hx refl
if-Post Q E false x y hx hy = hy refl

module _ {A : Type 0} {P E : Invariant} {Q : A → Invariant} where
  -- From more than is needed.
  pub Triple-pre : {P' : Invariant} (m : M A) → Implies P P' → Triple P' m Q E → Triple P m Q E
  Triple-pre m weak k = record { at = λ env w h. k.at env w (weak w.tables w.next_id h) }

  pub Triple-throw : (e : Err) → Implies P E → Triple P (throw e) Q E
  Triple-throw e weak = record { at = λ env w h. weak w.tables w.next_id h }

  -- Either branch.
  pub Triple-if :
      (b : Bool) (m n : M A)
      → Triple (λ t n. P t n × (b ≡ true)) m Q E
      → Triple (λ t n. P t n × (b ≡ false)) n Q E
      → Triple P (λ env w. if b then m env w else n env w) Q E
  Triple-if b m n km kn = record {
    at = λ env w h.
        if-Post Q E b (m env w) (n env w) (λ e. km.at env w (h, e)) (λ e. kn.at env w (h, e));
  }

-- What holds of the world whether the method returns or fails.
pub Triple-world :
    {A : Type 0} {P Q : Invariant} (m : M A)
    → ((env : Env) (w : World) → P w.tables w.next_id → Q (m env w).1.tables (m env w).1.next_id)
    → Triple P m (λ _. Q) Q
Triple-world {Q = Q} m k = record {
  at = λ env w h. let (r, w') = m env w in keeps_Post Q r w' (k env w h);
}

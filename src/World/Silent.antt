-- ===== src/World/Silent.antt =====
-- Methods that write nothing and send nothing, and what follows them.
use reward_mservice.Common.{List, Option, Bool, true, false, ◌≡◌, refl, ◌∙◌, if◌then◌else◌}
use reward_mservice.Errs.{Err}
use reward_mservice.World.State.{Tables, Event, World, Env}
use reward_mservice.World.Action.{
  Result, ok, err, M, pure, throw, asks, require, or_else, ◌>>=◌, throw_if, query,
}
use reward_mservice.World.Yields.{Value, Yields, Yields-any}

abbrev pub IsSame : Tables → List Event → World → Type 0
IsSame t o w = (w.tables ≡ t) × (w.outbox ≡ o)

pub record Silent {A : Type 0} (m : M A) : Type 0 where
  pub at : (env : Env) (w : World) → IsSame w.tables w.outbox (m env w).1

-- From these tables and messages, `m` ends as `Q` says.
pub record Leads {B : Type 0} (Q : Env → Result B × World → Type 0) (t : Tables) (o : List Event)
    (m : M B) : Type 0 where
  pub at : (env : Env) (w : World) → IsSame t o w → Q env (m env w)

module _ {A : Type 0} where
  or_else-IsSame :
      (t : Tables) (o : List Event) (r : Result A) (w : World) (f : Err → Err)
      → IsSame t o w
      → IsSame t o
          (elim r as (λ _. Result A × World) [ ok a ↦ (ok a, w) | err e ↦ (err (f e), w) ]).1
  or_else-IsSame t o (ok a) w f h = h
  or_else-IsSame t o (err e) w f h = h

  if-IsSame :
      (t : Tables) (o : List Event) (b : Bool) (x y : Result A × World)
      → IsSame t o x.1
      → IsSame t o y.1
      → IsSame t o (if b then x else y).1
  if-IsSame t o true x y hx hy = hx
  if-IsSame t o false x y hx hy = hy

  pub Silent-pure : (a : A) → Silent (pure a)
  Silent-pure a = record { at = λ env w. (refl, refl) }

  pub Silent-throw : (e : Err) → Silent (throw {A = A} e)
  Silent-throw e = record { at = λ env w. (refl, refl) }

  pub Silent-asks : (f : Env → A) → Silent (asks f)
  Silent-asks f = record { at = λ env w. (refl, refl) }

  pub Silent-require : (o : Option A) (e : Err) → Silent (require o e)
  Silent-require o e = record { at = λ env w. (refl, refl) }

  pub Silent-query : (f : Tables → A) → Silent (query f)
  unfolding query
  Silent-query f = record { at = λ env w. (refl, refl) }

  pub Silent-or_else : (m : M A) (f : Err → Err) → Silent m → Silent (or_else m f)
  Silent-or_else m f k = record {
    at = λ env w. let (r, w') = m env w in or_else-IsSame w.tables w.outbox r w' f (k.at env w);
  }

  pub Silent-if :
      (b : Bool) (m n : M A)
      → Silent m
      → Silent n
      → Silent (λ env w. if b then m env w else n env w)
  Silent-if b m n km kn = record {
    at = λ env w. if-IsSame w.tables w.outbox b _ _ (km.at env w) (kn.at env w);
  }

pub Silent-throw_if : (b : Bool) (e : Err) → Silent (throw_if b e)
Silent-throw_if b e = record { at = λ env w. (refl, refl) }

module _ {A B : Type 0} where
  bind-IsSame :
      (t : Tables) (o : List Event) (r : Result A) (env : Env) (w : World) (f : A → M B)
      → ((a : A) → Silent (f a))
      → IsSame t o w
      → IsSame t o (elim r as (λ _. Result B × World) [ ok a ↦ f a env w | err e ↦ (err e, w) ]).1
  bind-IsSame t o (ok a) env w f k h = (((k a).at env w).0 ∙ h.0, ((k a).at env w).1 ∙ h.1)
  bind-IsSame t o (err e) env w f k h = h

  pub Silent-bind : (m : M A) (f : A → M B) → Silent m → ((a : A) → Silent (f a)) → Silent (m >>= f)
  Silent-bind m f km kf = record {
    at =
        λ env w. let (r, w') = m env w in bind-IsSame w.tables w.outbox r env w' f kf (km.at env w);
  }

module _ {A B : Type 0} (Q : Env → Result B × World → Type 0) (t : Tables) (o : List Event)
    (refused : (e : Err) (env : Env) (w : World) → IsSame t o w → Q env (err e, w)) where
  bind-leads :
      {K : A → Type 0} (r : Result A) (env : Env) (w : World) (f : A → M B)
      → ((a : A) → K a → Leads Q t o (f a))
      → Value K r
      → IsSame t o w
      → Q env (elim r as (λ _. Result B × World) [ ok a ↦ f a env w | err e ↦ (err e, w) ])
  bind-leads (ok a) env w f k v h = (k a v).at env w h
  bind-leads (err e) env w f k v h = refused e env w h

  -- What follows a silent method, which knows of its value what it yields.
  pub Leads-after :
      {K : A → Type 0} (m : M A) (f : A → M B)
      → Silent m
      → Yields K m
      → ((a : A) → K a → Leads Q t o (f a))
      → Leads Q t o (m >>= f)
  Leads-after {K = K} m f s y k = record {
    at = λ env w h.
        let (r, w') = m env w in
        let same = s.at env w in
        bind-leads {K = K} r env w' f k (y.at env w) (same.0 ∙ h.0, same.1 ∙ h.1);
  }

  pub Leads-bind :
      (m : M A) (f : A → M B) → Silent m → ((a : A) → Leads Q t o (f a)) → Leads Q t o (m >>= f)
  Leads-bind m f s k = Leads-after m f s (Yields-any m) (λ a _. k a)

pub ruleset silent_rules = (
  Silent-pure, Silent-throw, Silent-asks, Silent-require, Silent-query, Silent-or_else, Silent-if,
  Silent-throw_if, Silent-bind,
)

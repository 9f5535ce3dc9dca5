-- ===== src/World/Yields.antt =====
-- What is known of the value that a method returns, whatever its world.
use reward_mservice.Common.{Bool, true, false, ◌≡◌, refl, if◌then◌else◌}
use reward_mservice.Errs.{Err, driver}
use reward_mservice.World.State.{Tables, World, Env}
use reward_mservice.World.Action.{Result, ok, err, M, pure, or_else, ◌>>=◌, throw_if, query}

abbrev pub Value : {A : Type 0} → (A → Type 0) → Result A → Type 0
Value Q (ok a) = Q a
Value Q (err e) = Unit

pub record Yields {A : Type 0} (Q : A → Type 0) (m : M A) : Type 0 where
  pub at : (env : Env) (w : World) → Value Q (m env w).0

any-Value : {A : Type 0} (r : Result A) → Value (λ _. Unit {0}) r
any-Value (ok a) = tt
any-Value (err e) = tt

throw_if_Value :
    (b : Bool) (e : Err) → Value {A = Unit {0}} (λ _. b ≡ false) (if b then err e else ok tt)
throw_if_Value true e = tt
throw_if_Value false e = refl

bind-Value :
    {A B : Type 0} (Q : A → Type 0) (R : B → Type 0) (f : A → M B) (r : Result A) (env : Env)
    (w : World)
    → ((a : A) → Q a → Yields R (f a))
    → Value Q r
    → Value R (elim r as (λ _. Result B × World) [ ok a ↦ f a env w | err e ↦ (err e, w) ]).0
bind-Value Q R f (ok a) env w k h = (k a h).at env w
bind-Value Q R f (err e) env w k h = tt

pub Yields-any : {A : Type 0} (m : M A) → Yields (λ _. Unit {0}) m
Yields-any m = record { at = λ env w. any-Value (m env w).0 }

pub Yields-pure : {A : Type 0} {Q : A → Type 0} (a : A) → Q a → Yields Q (pure a)
Yields-pure a h = record { at = λ env w. h }

pub Yields-throw_if : (b : Bool) (e : Err) → Yields (λ _. b ≡ false) (throw_if b e)
Yields-throw_if b e = record { at = λ env w. throw_if_Value b e }

pub Yields-bind :
    {A B : Type 0} {Q : A → Type 0} {R : B → Type 0} (m : M A) (f : A → M B)
    → Yields Q m
    → ((a : A) → Q a → Yields R (f a))
    → Yields R (m >>= f)
Yields-bind {Q = Q} {R = R} m f km kf = record {
  at = λ env w. let (r, w') = m env w in bind-Value Q R f r env w' kf (km.at env w);
}

query-Value :
    {A : Type 0} (Q : A → Type 0) (b : Bool) (e : Err) (a : A)
    → Q a
    → Value Q (if b then err e else ok a)
query-Value Q true e a h = tt
query-Value Q false e a h = h

pub Yields-query :
    {A : Type 0} {Q : A → Type 0} (f : Tables → A) → ((t : Tables) → Q (f t)) → Yields Q (query f)
unfolding query
Yields-query {Q = Q} f k = record {
  at = λ env w. query-Value Q (env.fails w.calls) driver (f w.tables) (k w.tables);
}

or_else-Value :
    {A : Type 0} (Q : A → Type 0) (r : Result A) (w : World) (f : Err → Err)
    → Value Q r
    → Value Q (elim r as (λ _. Result A × World) [ ok a ↦ (ok a, w) | err e ↦ (err (f e), w) ]).0
or_else-Value Q (ok a) w f h = h
or_else-Value Q (err e) w f h = tt

pub Yields-or_else :
    {A : Type 0} {Q : A → Type 0} (m : M A) (f : Err → Err) → Yields Q m → Yields Q (or_else m f)
Yields-or_else {Q = Q} m f k = record {
  at = λ env w. let (r, w') = m env w in or_else-Value Q r w' f (k.at env w);
}

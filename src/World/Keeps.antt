-- ===== src/World/Keeps.antt =====
-- Invariants of methods: one rule for each way to build a method. An invariant is about the tables
-- and the next id.
use reward_mservice.Common.{
  ℕ, ◌+◌, ◌≤◌, Bool, true, false, not, Option, ◌≡◌, refl, arith, Bool-cases, inl, inr,
  if◌then◌else◌,
}
use reward_mservice.Errs.{Err, panic}
use reward_mservice.World.State.{Tables, Event, World, Env}
use reward_mservice.World.Transactions.{RolledBack, transaction-cases}
use reward_mservice.World.Action.{
  counted, Result, ok, err, M, pure, throw, asks, require, or_else, ◌>>=◌, throw_if, duplicate_key,
  rescue, call, query, execute, execute_if, new_ids, publish, transaction,
}

abbrev pub Invariant : Type 1
Invariant = Tables → ℕ → Type 0

-- `m` keeps `P`, whether it returns or fails.
pub record Keeps {A : Type 0} (P : Invariant) (m : M A) : Type 0 where
  pub at : (env : Env) (w : World) → P w.tables w.next_id → P (m env w).1.tables (m env w).1.next_id

-- Ids that are given away do no harm.
pub record IsMonotone (P : Invariant) : Type 0 where
  pub at : (t : Tables) (m n : ℕ) → m ≤ n → P t m → P t n

abbrev pub Holds : {A : Type 0} → Invariant → Result A × World → Type 0
Holds P (r, w) = P w.tables w.next_id

pub if_Holds :
    {A : Type 0} (P : Invariant) (b : Bool) (x y : Result A × World)
    → Holds P x
    → Holds P y
    → Holds P (if b then x else y)
if_Holds P true x y hx hy = hx
if_Holds P false x y hx hy = hy

module _ {A : Type 0} (P : Invariant) where
  or_else-Holds :
      (r : Result A) (w : World) (f : Err → Err)
      → P w.tables w.next_id
      → Holds P (elim r as (λ _. Result A × World) [ ok a ↦ (ok a, w) | err e ↦ (err (f e), w) ])
  or_else-Holds (ok a) w f h = h
  or_else-Holds (err e) w f h = h

  rescue-Holds :
      (r : Result A) (env : Env) (w : World) (handler : Err → M A)
      → ((e : Err) → Keeps P (handler e))
      → P w.tables w.next_id
      → Holds P (elim r as (λ _. Result A × World) [
        | ok a ↦ (ok a, w)
        | err panic ↦ (err panic, w)
        | err e ↦ handler e env w
      ])
  rescue-Holds (ok a) env w handler k h = h
  rescue-Holds (err panic) env w handler k h = h
  rescue-Holds (err e) env w handler k h = (k e).at env w h

module _ {A B : Type 0} (P : Invariant) where
  bind-Holds :
      (r : Result A) (env : Env) (w : World) (f : A → M B)
      → ((a : A) → r ≡ ok a → Holds P (f a env w))
      → P w.tables w.next_id
      → Holds P (elim r as (λ _. Result B × World) [ ok a ↦ f a env w | err e ↦ (err e, w) ])
  bind-Holds (ok a) env w f k h = k a refl
  bind-Holds (err e) env w f k h = h

module _ {P : Invariant} where
  pub Keeps-call : Keeps P call
  unfolding call
  Keeps-call = record { at = λ env w h. h }

  pub Keeps-publish : (e : Event) → Keeps P (publish e)
  unfolding publish
  Keeps-publish e = record {
    at = λ env w h.
        if_Holds P (not env.kafka_enabled) _ _ h (if_Holds P (env.fails w.calls) _ _ h h);
  }

  pub Keeps-throw_if : (b : Bool) (e : Err) → Keeps P (throw_if b e)
  Keeps-throw_if b e = record { at = λ env w h. h }

  pub Keeps-duplicate_key : (e : Err) → Keeps P (duplicate_key e)
  Keeps-duplicate_key e = record { at = λ env w h. h }

  -- A statement that writes keeps what its change of the tables keeps.
  pub Keeps-execute :
      (f : Tables → Tables) → ((t : Tables) (n : ℕ) → P t n → P (f t) n) → Keeps P (execute f)
  unfolding execute
  Keeps-execute f k = record {
    at = λ env w h. if_Holds P (env.fails w.calls) _ _ h (k w.tables w.next_id h);
  }

  -- … where it is carried out.
  pub Keeps-execute_if :
      (test : Tables → Bool) (e : Err) (f : Tables → Tables)
      → ((t : Tables) (n : ℕ) → P t n → test t ≡ true → P (f t) n)
      → Keeps P (execute_if test e f)
  unfolding execute_if
  Keeps-execute_if test e f k = record {
    at = λ env w h. if_Holds P (env.fails w.calls) _ _ h (elim (Bool-cases (test w.tables)) [
      | inl passed ↦ rw passed (k w.tables w.next_id h passed)
      | inr failed ↦ rw failed h
    ]);
  }

  pub Keeps-new_ids : (n : ℕ) → IsMonotone P → Keeps P (new_ids n)
  unfolding new_ids
  Keeps-new_ids n mono = record {
    at = λ env w h. mono.at w.tables w.next_id (w.next_id + n) (omega arith) h;
  }

module _ {A : Type 0} {P : Invariant} where
  pub Keeps-pure : (a : A) → Keeps P (pure a)
  Keeps-pure a = record { at = λ env w h. h }

  pub Keeps-throw : (e : Err) → Keeps P (throw {A = A} e)
  Keeps-throw e = record { at = λ env w h. h }

  pub Keeps-asks : (f : Env → A) → Keeps P (asks f)
  Keeps-asks f = record { at = λ env w h. h }

  pub Keeps-require : (o : Option A) (e : Err) → Keeps P (require o e)
  Keeps-require o e = record { at = λ env w h. h }

  pub Keeps-query : (f : Tables → A) → Keeps P (query f)
  unfolding query
  Keeps-query f = record { at = λ env w h. h }

  pub Keeps-or_else : (m : M A) (f : Err → Err) → Keeps P m → Keeps P (or_else m f)
  Keeps-or_else m f k = record {
    at = λ env w h. let (r, w') = m env w in or_else-Holds P r w' f (k.at env w h);
  }

  -- Either branch.
  pub Keeps-if :
      (b : Bool) (m n : M A)
      → Keeps P m
      → Keeps P n
      → Keeps P (λ env w. if b then m env w else n env w)
  Keeps-if b m n km kn = record { at = λ env w h. if_Holds P b _ _ (km.at env w h) (kn.at env w h) }

  pub Keeps-rescue :
      (m : M A) (handler : Err → M A)
      → Keeps P m
      → ((e : Err) → Keeps P (handler e))
      → Keeps P (rescue m handler)
  Keeps-rescue m handler km kh = record {
    at = λ env w h. let (r, w') = m env w in rescue-Holds P r env w' handler kh (km.at env w h);
  }

module _ {A B : Type 0} {P : Invariant} where
  pub Keeps-bind :
      (m : M A) (f : A → M B) → Keeps P m → ((a : A) → Keeps P (f a)) → Keeps P (m >>= f)
  Keeps-bind m f km kf = record {
    at = λ env w h.
        let (r, w') = m env w in
        let h' = km.at env w h in bind-Holds P r env w' f (λ a _. (kf a).at env w' h') h';
  }

module _ {A : Type 0} {P : Invariant} where
  guard-Holds :
      (b : Bool) (e : Err) (f : Unit {0} → M A) (env : Env) (w : World)
      → (b ≡ false → Keeps P (f tt))
      → P w.tables w.next_id
      → Holds P ((throw_if b e >>= f) env w)
  guard-Holds true e f env w k h = h
  guard-Holds false e f env w k h = (k refl).at env w h

  -- What follows a check may use that it has passed.
  pub Keeps-guard :
      (b : Bool) (e : Err) (f : Unit {0} → M A)
      → (b ≡ false → Keeps P (f tt))
      → Keeps P (throw_if b e >>= f)
  Keeps-guard b e f k = record { at = λ env w h. guard-Holds b e f env w k h }

-- The ids never fall below `bound`.
abbrev pub Above : ℕ → Invariant
Above bound t n = bound ≤ n

pub Above-IsMonotone : (bound : ℕ) → IsMonotone (Above bound)
Above-IsMonotone bound = record { at = λ t m n l h. omega arith }

module _ {A : Type 0} {P : Invariant} (body : M A) (mono : IsMonotone P)
    (grows : (bound : ℕ) → Keeps (Above bound) body) where
  pub grown :
      (env : Env) (w : World)
      → RolledBack body env w
      → w.next_id ≤ (transaction body env w).1.next_id
  grown env w r = elim r.ids [
    | inl e ↦ omega (arith, e)
    | inr e ↦ omega (arith, e, (grows w.next_id).at env (counted w) (omega arith))
  ]

  -- What holds whenever the body succeeds holds after the transaction: an error takes everything
  -- back but the ids.
  pub Keeps-transaction_success :
      ((env : Env) (w w' : World) (a : A)
        → P w.tables w.next_id
        → body env w ≡ (ok a, w')
        → P w'.tables w'.next_id)
      → Keeps P (transaction body)
  Keeps-transaction_success k = record {
    at = λ env w h. elim (transaction-cases body env w) [
      | inl c ↦ rw c.result (k env (counted w) c.after c.value h c.ran)
      | inr r ↦ rw r.tables (mono.at w.tables w.next_id _ (grown env w r) h)
    ];
  }

module _ {A : Type 0} {P : Invariant} where
  -- What the body keeps the transaction keeps.
  pub Keeps-transaction :
      (body : M A)
      → IsMonotone P
      → ((bound : ℕ) → Keeps (Above bound) body)
      → Keeps P body
      → Keeps P (transaction body)
  Keeps-transaction body mono grows k =
      Keeps-transaction_success body mono grows (λ env w w' a h ran. rw ran at ((k.at env w) h))

pub ruleset keeps_rules = (
  Keeps-call, Keeps-publish, Keeps-throw_if, Keeps-duplicate_key, Keeps-pure, Keeps-throw,
  Keeps-asks, Keeps-require, Keeps-query, Keeps-or_else, Keeps-if, Keeps-rescue, Keeps-bind,
)

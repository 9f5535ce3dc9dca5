-- ===== src/World/Transactions.antt =====
-- A transaction commits what its body wrote, or leaves the tables as they were.
use reward_mservice.Common.{false, ◌≡◌, refl, ◌⊎◌, inl, inr, arith, Bool-cases}
use reward_mservice.Errs.{Err, driver}
use reward_mservice.World.State.{Tables, World, Env}
use reward_mservice.World.Action.{Result, ok, err, M, call, counted, transaction}

pub record Committed {A : Type 0} (body : M A) (env : Env) (w : World) : Type 0 where
  pub value : A
  pub after : World
  pub ran : body env (counted w) ≡ (ok value, after)
  pub result : transaction body env w ≡ (ok value, counted after)

pub record RolledBack {A : Type 0} (body : M A) (env : Env) (w : World) : Type 0 where
  pub error : Err
  pub failed : (transaction body env w).0 ≡ err error
  pub tables : (transaction body env w).1.tables ≡ w.tables
  pub ids :
      ((transaction body env w).1.next_id ≡ w.next_id)
      ⊎ ((transaction body env w).1.next_id ≡ (body env (counted w)).1.next_id)
  pub outbox :
      ((transaction body env w).1.outbox ≡ w.outbox)
      ⊎ ((transaction body env w).1.outbox ≡ (body env (counted w)).1.outbox)

module _ {A : Type 0} (body : M A) (env : Env) (w : World) where
  after_begin :
      env.fails w.calls ≡ false
      → (r : Result A) (after : World) → body env (counted w) ≡ (r, after)
      → Committed body env w ⊎ RolledBack body env w
  unfolding transaction call
  after_begin begun (ok a) after ran = elim (Bool-cases (env.fails after.calls)) [
    | inl failed ↦ inr (record {
      error = driver;
      failed = ground arith;
      tables = ground arith;
      ids = inr (ground arith);
      outbox = inr (ground arith);
    })
    | inr committed ↦ inl (record { value = a; after = after; ran = ran; result = ground arith })
  ]
  after_begin begun (err e) after ran = inr (record {
    error = e;
    failed = ground arith;
    tables = ground arith;
    ids = inr (ground arith);
    outbox = inr (ground arith);
  })

  pub transaction-cases : Committed body env w ⊎ RolledBack body env w
  unfolding transaction call
  transaction-cases = elim (Bool-cases (env.fails w.calls)) [
    | inl failed ↦ inr (record {
      error = driver;
      failed = ground arith;
      tables = ground arith;
      ids = inl (ground arith);
      outbox = inl (ground arith);
    })
    | inr begun ↦ let (r, after) = body env (counted w) in after_begin begun r after refl
  ]

-- All or nothing: a result comes with the tables that `Q` describes, an error with the old ones.
abbrev pub Atomic : {A : Type 0} → Tables → (A → Tables → Type 0) → Result A × World → Type 0
Atomic t Q (ok a, w) = Q a w.tables
Atomic t Q (err e, w) = w.tables ≡ t

failed-Atomic :
    {A : Type 0} (t : Tables) (Q : A → Tables → Type 0) (e : Err) (out : Result A × World)
    → out.0 ≡ err e
    → out.1.tables ≡ t
    → Atomic t Q out
failed-Atomic t Q e (ok a, w) failed same = cc
failed-Atomic t Q e (err f, w) failed same = same

pub transaction-Atomic :
    {A : Type 0} (Q : A → Tables → Type 0) (body : M A) (env : Env) (w : World)
    → ((a : A) (w' : World) → body env (counted w) ≡ (ok a, w') → Q a w'.tables)
    → Atomic w.tables Q (transaction body env w)
transaction-Atomic Q body env w k = elim (transaction-cases body env w) [
  | inl c ↦ rw c.result (k c.value c.after c.ran)
  | inr r ↦ failed-Atomic w.tables Q r.error _ r.failed r.tables
]

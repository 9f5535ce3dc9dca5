-- ===== src/World/Action.antt =====
-- A method: it reads its environment, and returns its result with the state. What was written
-- before an error stays written, unless a transaction takes it back.
use reward_mservice.Common.{ℕ, ◌+◌, Bool, Option, none, some, [], ◌∷◌, ◌++◌, not, if◌then◌else◌}
use reward_mservice.Errs.{Err, driver, panic}
use reward_mservice.World.State.{Tables, Event, World, Env}

pub data Result (A : Type 0) : Type 0 where
  ok : A → Result A
  err : Err → Result A

abbrev pub M : Type 0 → Type 0
M A = Env → World → Result A × World

module _ {A : Type 0} where
  abbrev pub pure : A → M A
  pure a env w = (ok a, w)

  abbrev pub throw : Err → M A
  throw e env w = (err e, w)

  abbrev pub asks : (Env → A) → M A
  asks f env w = (ok (f env), w)

  -- `if x == nil { return e }`
  abbrev pub require : Option A → Err → M A
  require o e env w = (elim o [ none ↦ err e | some a ↦ ok a ], w)

  -- A nil dereference.
  abbrev pub deref : Option A → M A
  deref o = require o panic

  -- `if err != nil { return f(err) }`
  abbrev pub or_else : M A → (Err → Err) → M A
  or_else m f env w =
      let (r, w') = m env w in elim r [ ok a ↦ (ok a, w') | err e ↦ (err (f e), w') ]

infixl 5 ◌>>=◌ ◌>>◌
abbrev pub ◌>>=◌ : {A B : Type 0} → M A → (A → M B) → M B
◌>>=◌ m f env w = let (r, w') = m env w in elim r [ ok a ↦ f a env w' | err e ↦ (err e, w') ]

abbrev pub ◌>>◌ : {A B : Type 0} → M A → M B → M B
m >> k = m >>= λ _. k

-- `if b { return e }`
abbrev pub throw_if : Bool → Err → M (Unit {0})
throw_if b e env w = (if b then err e else ok tt, w)

-- Runs `m`, and `handler` on its error; a panic passes through.
abbrev pub rescue : {A : Type 0} → M A → (Err → M A) → M A
rescue m handler env w =
    let (r, w') = m env w in
    elim r [ ok a ↦ (ok a, w') | err panic ↦ (err panic, w') | err e ↦ handler e env w' ]

-- A call of the database, the broker or a remote service counts, and may fail.
abbrev pub counted : World → World
counted w = record w { calls = w.calls + 1 }

-- A call with nothing to return or to change: BEGIN and COMMIT.
unfoldable pub call : M (Unit {0})
call env w = (if env.fails w.calls then err driver else ok tt, counted w)

-- A statement that reads.
unfoldable pub query : {A : Type 0} → (Tables → A) → M A
query f env w = (if env.fails w.calls then err driver else ok (f w.tables), counted w)

-- A statement that writes.
unfoldable pub execute : (Tables → Tables) → M (Unit {0})
execute f env w =
    if env.fails w.calls
    then (err driver, counted w)
    else (ok tt, record w { tables = f w.tables; calls = w.calls + 1 })

-- A statement whose RowsAffected is tested, or an INSERT that a unique key may refuse: `test` says
-- whether it is carried out, and `e` is the error if it is not.
unfoldable pub execute_if : (Tables → Bool) → Err → (Tables → Tables) → M (Unit {0})
execute_if test e f env w =
    if env.fails w.calls
    then (err driver, counted w)
    else if test w.tables
    then (ok tt, record w { tables = f w.tables; calls = w.calls + 1 })
    else (err e, counted w)

-- What the database reports for a violated unique key, where the caller looks for ErrDuplicatedKey
-- to return `e`.
abbrev pub duplicate_key : Err → M Err
duplicate_key e env w = (ok (if env.translate_error then e else driver), w)

-- New primary keys: the first of `n` in a row. A rollback does not give them back.
unfoldable pub new_ids : ℕ → M ℕ
new_ids n env w = (ok w.next_id, record w { next_id = w.next_id + n })

-- `Publish` of the producer that `buildProducer` chooses: nopKafkaProducer returns nil and sends
-- nothing.
unfoldable pub publish : Event → M (Unit {0})
publish e env w =
    if not env.kafka_enabled
    then (ok tt, w)
    else if env.fails w.calls
    then (err driver, counted w)
    else (ok tt, record w { outbox = w.outbox ++ e ∷ []; calls = w.calls + 1 })

-- gorm's `Transaction`: BEGIN, the body, COMMIT; on an error or a panic of any of these the
-- tables are as they were.
unfoldable pub transaction : {A : Type 0} → M A → M A
transaction body env w =
    let (r, w') = (do call; a ← body; call; pure a) env w in
    elim r [ ok a ↦ (ok a, w') | err e ↦ (err e, record w' { tables = w.tables }) ]

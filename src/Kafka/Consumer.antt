-- ===== src/Kafka/Consumer.antt =====
-- server/kafka/listener/consumer.go. The handlers of a record run in goroutines; here they run one
-- after the other, in the order in which the list gives them.
use reward_mservice.Common.{
  ℕ, Bool, true, false, ◌||◌, Option, none, some, List, [], ◌∷◌, ◌++◌, Text, eq_text, is_empty,
  if◌then◌else◌,
}
use reward_mservice.Errs.{Err, panic}
use reward_mservice.World.{World, Env, ok, err, call}
use reward_mservice.Finance.Docs.{is_nil}
use reward_mservice.Kafka.Registry.{Handlers, handlers_for_topic}
use reward_mservice.Kafka.Listener.{Message, Handler}

-- `config.KafkaConfig`
pub record KafkaConfig : Type 0 where
  pub enabled : Bool
  pub brokers : List Text
  pub group_id : Text
  pub client_id : Text
  pub topics : List Text

-- What the client polls.
pub record Record : Type 0 where
  pub topic : Text
  pub partition : ℕ
  pub offset : ℕ
  pub key : Text
  pub value : Text
  pub headers : List (Text × Text)

-- `headers[key] = value`
unfoldable pub set_header : Text → Text → List (Text × Text) → List (Text × Text)
set_header key value [] = (key, value) ∷ []
set_header key value ((k, v) ∷ rest) =
    let others = set_header key value rest in
    if eq_text k key then (k, value) ∷ rest else (k, v) ∷ others

unfoldable pub collect_headers : List (Text × Text) → List (Text × Text) → List (Text × Text)
collect_headers [] headers = headers
collect_headers ((key, value) ∷ more) headers = collect_headers more (set_header key value headers)

unfoldable pub to_message : Record → Message
to_message r = record {
  topic = r.topic;
  partition = r.partition;
  offset = r.offset;
  key = r.key;
  value = r.value;
  headers = collect_headers r.headers [];
}

-- `validateConfig` finds an error.
unfoldable pub is_invalid_config : Option KafkaConfig → Bool
is_invalid_config none = true
is_invalid_config (some cfg) = is_nil cfg.brokers || is_empty cfg.group_id || is_nil cfg.topics

-- The errors of the handlers, and the world after them.
unfoldable pub invoke_handlers : List Handler → Message → Env → World → List Err × World
invoke_handlers [] msg env w = ([], w)
invoke_handlers (h ∷ handlers) msg env w =
    let (r, w') = h msg env w in
    let (errs, last) = invoke_handlers handlers msg env w' in
    elim r [ ok _ ↦ (errs, last) | err e ↦ (e ∷ errs, last) ]

-- A panic in a goroutine ends the process.
unfoldable pub has_panic : List Err → Bool
has_panic [] = false
has_panic (panic ∷ errs) = true
has_panic (_ ∷ errs) = has_panic errs

-- How the handling of a record ended.
pub data Handled : Type 0 where
  skipped failed committed commit_failed crashed : Handled

-- The service's world, and the records whose offsets have been committed.
pub record Consumer : Type 0 where
  pub world : World
  pub commits : List Record

-- `CommitRecords`
unfoldable pub commit_record : Record → Env → Consumer → Handled × Consumer
commit_record r env c =
    let (res, w) = call env c.world in
    elim res [
      | ok _ ↦ (committed, record { world = w; commits = c.commits ++ r ∷ [] })
      | err e ↦ (commit_failed, record c { world = w })
    ]

unfoldable pub finish_record : Record → List Err → Env → Consumer → Handled × Consumer
finish_record r errs env c =
    if has_panic errs
    then (crashed, c)
    else if is_nil errs
    then commit_record r env c
    else (failed, c)

-- `handleRecord`
unfoldable pub handle_record :
    Text → Handlers Handler → Record → Env → Consumer → Handled × Consumer
handle_record prefix handlers r env c =
    let hs = handlers_for_topic prefix r.topic handlers in
    let (errs, w) = invoke_handlers hs (to_message r) env c.world in
    if is_nil hs then (skipped, c) else finish_record r errs env (record c { world = w })

abbrev pub is_crashed : Handled → Bool
is_crashed crashed = true
is_crashed _ = false

-- `EachRecord` of the fetched records; each with what its surroundings answer. A crash ends it:
-- then the first component is true.
unfoldable pub each_record :
    Text → Handlers Handler → List (Record × Env) → Consumer → Bool × Consumer
each_record prefix handlers [] c = (false, c)
each_record prefix handlers ((r, env) ∷ records) c =
    let (handled, c') = handle_record prefix handlers r env c in
    let rest = each_record prefix handlers records c' in
    if is_crashed handled then (true, c') else rest

-- What `PollFetches` gives: whether its `Errors` are not empty, and its records.
pub record Fetch : Type 0 where
  pub has_errors : Bool
  pub records : List (Record × Env)

-- The loop over the fetches until the context is done: of a fetch with errors no record is handled.
unfoldable pub run : Text → Handlers Handler → List Fetch → Consumer → Consumer
run prefix handlers [] c = c
run prefix handlers (f ∷ fetches) c =
    let skipping = run prefix handlers fetches c in
    let (crash, c') = each_record prefix handlers f.records c in
    let rest = run prefix handlers fetches c' in
    if f.has_errors then skipping else if crash then c' else rest

-- ===== src/Kafka/Commits.antt =====
-- What the loop of the consumer commits.
use reward_mservice.Common.{List, [], ◌∷◌, ◌++◌, Text, ◌≡◌, if◌then◌else◌}
use reward_mservice.World.{Env}
use reward_mservice.Finance.Docs.{is_nil}
use reward_mservice.Kafka.Registry.{Handlers, handlers_for_topic}
use reward_mservice.Kafka.Listener.{Handler}
use reward_mservice.Kafka.Consumer.{Record, Consumer, Fetch}
use reward_mservice.Kafka.Proofs.{handlers_errors}

module _ (prefix : Text) (m : Handlers Handler) where
  -- Some of the records, in their order, each once, and each handled without an error.
  pub data Sublist : List Record → List Record → Type 0 where
    no_more : Sublist [] []
    left_out : {rs es : List Record} (e : Record) → Sublist rs es → Sublist rs (e ∷ es)
    taken :
        {rs es : List Record} (e : Record) (env : Env) (c : Consumer)
        → handlers_errors prefix m e env c ≡ []
        → Sublist rs es
        → Sublist (e ∷ rs) (e ∷ es)

  -- Some of the records `es` were committed.
  abbrev pub Grew : List Record → Consumer → Consumer → Type 0
  Grew es c out = (rs : List Record) × (out.commits ≡ c.commits ++ rs) × Sublist rs es

  -- The record, if its topic has handlers.
  abbrev pub if_handled : Record → List Record
  if_handled r = if is_nil (handlers_for_topic prefix r.topic m) then [] else r ∷ []

  abbrev pub handled_records : List (Record × Env) → List Record
  handled_records [] = []
  handled_records ((r, env) ∷ records) = if_handled r ++ handled_records records

  -- The records that have handlers, of the fetches without errors.
  abbrev pub to_commit : List Fetch → List Record
  to_commit [] = []
  to_commit (f ∷ fetches) =
      (if f.has_errors then [] else handled_records f.records) ++ to_commit fetches

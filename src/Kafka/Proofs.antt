-- ===== src/Kafka/Proofs.antt =====
-- What the topics, the handlers and the consumer promise.
use reward_mservice.Common.{
  ==_refl, true, false, List, [], ◌∷◌, ◌++◌, Text, ◌≡◌, refl, arith, Bool-cases, ◌⊎◌, inl, inr,
}
use reward_mservice.Errs.{Err}
use reward_mservice.World.{Env, call}
use reward_mservice.Finance.Docs.{is_nil}
use reward_mservice.Kafka.Topic.{
  has_prefix, drop_prefix, trim_prefix, prefixed_topic, logical_topic,
}
use reward_mservice.Kafka.Registry.{Handlers, handlers_for_topic}
use reward_mservice.Kafka.Listener.{Handler}
use reward_mservice.Kafka.Consumer.{
  Record, Consumer, Handled, committed, to_message, invoke_handlers, has_panic, commit_record,
  finish_record, handle_record,
}

has_prefix-append : (p s : Text) → has_prefix (p ++ s) p ≡ true
unfolding has_prefix
has_prefix-append [] s = refl
has_prefix-append (c ∷ p) s = rw (==_refl c) (has_prefix-append p s)

drop_prefix-append : (p s : Text) → drop_prefix (p ++ s) p ≡ s
unfolding drop_prefix
drop_prefix-append [] s = refl
drop_prefix-append (c ∷ p) s = drop_prefix-append p s

trims : (p s : Text) → trim_prefix (p ++ s) p ≡ s
unfolding trim_prefix
trims p s = rw (has_prefix-append p s) (drop_prefix-append p s)

-- `LogicalTopic` of what `PrefixedTopic` makes of a topic is that topic, for every prefix.
pub logical_topic-prefixed_topic :
    (prefix topic : Text) → logical_topic prefix (prefixed_topic prefix topic) ≡ topic
unfolding logical_topic prefixed_topic
logical_topic-prefixed_topic [] topic = ground arith
logical_topic-prefixed_topic (c ∷ p) [] = refl
logical_topic-prefixed_topic (c ∷ p) (d ∷ s) = trims (c ∷ p) (d ∷ s)

abbrev pub handlers_errors : Text → Handlers Handler → Record → Env → Consumer → List Err
handlers_errors prefix m r env c =
    (invoke_handlers (handlers_for_topic prefix r.topic m) (to_message r) env c.world).0

-- The record was not committed, or it was, and it had handlers, and none of them failed.
abbrev pub Commits : Text → Handlers Handler → Record → Env → Consumer → Handled × Consumer → Type 0
Commits prefix m r env c out =
    (out.1.commits ≡ c.commits)
    ⊎ ((out.1.commits ≡ c.commits ++ r ∷ [])
        × (out.0 ≡ committed)
        × (is_nil (handlers_for_topic prefix r.topic m) ≡ false)
        × (handlers_errors prefix m r env c ≡ []))

nil_errors : (errs : List Err) → is_nil errs ≡ true → errs ≡ []
nil_errors [] h = refl
nil_errors (e ∷ errs) h = cc

finish_cases :
    (r : Record) (errs : List Err) (env : Env) (c : Consumer)
    → ((finish_record r errs env c).1.commits ≡ c.commits)
      ⊎ (((finish_record r errs env c).1.commits ≡ c.commits ++ r ∷ [])
          × ((finish_record r errs env c).0 ≡ committed)
          × (errs ≡ []))
unfolding finish_record commit_record call
finish_cases r errs env c = elim (Bool-cases (has_panic errs)) [
  | inl crash ↦ inl (ground arith)
  | inr calm ↦ elim (Bool-cases (is_nil errs)) [
    | inr errors ↦ inl (ground arith)
    | inl clean ↦ elim (Bool-cases (env.fails c.world.calls)) [
      | inl lost ↦ inl (ground arith)
      | inr done ↦ inr (ground arith, ground arith, nil_errors errs clean)
    ]
  ]
]

-- `handleRecord`, with any handlers registered: the record's offset is committed only if its topic
-- has handlers and none of them returned an error; in every other case no offset is committed.
pub handle_record-Commits :
    (prefix : Text) (m : Handlers Handler) (r : Record) (env : Env) (c : Consumer)
    → Commits prefix m r env c (handle_record prefix m r env c)
unfolding handle_record
handle_record-Commits prefix m r env c =
    let hs = handlers_for_topic prefix r.topic m in
    let done = invoke_handlers hs (to_message r) env c.world in
    elim (Bool-cases (is_nil hs)) [
      | inl unhandled ↦ inl (rw unhandled refl)
      | inr handled ↦ rw handled (elim (finish_cases r done.0 env (record c { world = done.1 })) [
        | inl kept ↦ inl kept
        | inr grew ↦ inr (grew.0, grew.1, refl, grew.2)
      ])
    ]

-- ===== src/Kafka/Registry.antt =====
-- server/kafka/handler.go: the handlers of each topic. The map is a list of its entries, with one
-- entry for a topic; `H` is the type of the handlers, and a nil handler is `none`.
use reward_mservice.Common.{
  Option, none, some, List, [], ◌∷◌, ◌++◌, Text, eq_text, is_empty, if◌then◌else◌,
}
use reward_mservice.Finance.Docs.{is_nil}
use reward_mservice.Kafka.Topic.{logical_topic}

abbrev pub Handlers : Type 0 → Type 0
Handlers H = List (Text × List H)

module _ {H : Type 0} where
  -- `handlers[topic]`, nil if the topic has no entry.
  unfoldable pub handlers_of : Text → Handlers H → List H
  handlers_of topic [] = []
  handlers_of topic ((key, hs) ∷ rest) =
      let others = handlers_of topic rest in if eq_text key topic then hs else others

  -- `handlers[topic] = append(handlers[topic], handler)`
  unfoldable pub append_handler : Text → H → Handlers H → Handlers H
  append_handler topic h [] = (topic, h ∷ []) ∷ []
  append_handler topic h ((key, hs) ∷ rest) =
      let others = append_handler topic h rest in
      if eq_text key topic then (key, hs ++ h ∷ []) ∷ rest else (key, hs) ∷ others

  unfoldable pub register_handler : Text → Option H → Handlers H → Handlers H
  register_handler topic none handlers = handlers
  register_handler topic (some h) handlers =
      if is_empty topic then handlers else append_handler topic h handlers

  unfoldable pub handlers_for_topic : Text → Text → Handlers H → List H
  handlers_for_topic prefix topic handlers = handlers_of (logical_topic prefix topic) handlers

  -- The topics that have a handler.
  unfoldable pub registered_topics : Handlers H → List Text
  registered_topics [] = []
  registered_topics ((key, hs) ∷ rest) =
      let others = registered_topics rest in if is_nil hs then others else key ∷ others

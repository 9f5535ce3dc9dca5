-- ===== src/Kafka/Topic.antt =====
-- server/kafka/topic.go. `prefix` is the environment's KAFKA_TOPIC_PREFIX, empty when unset.
use reward_mservice.Common.{
  ◌==◌, Bool, true, false, ◌&&◌, ◌||◌, List, [], ◌∷◌, ◌++◌, map, Text, is_empty, if◌then◌else◌,
}

-- `strings.HasPrefix(s, p)`
unfoldable pub has_prefix : (s p : Text) → Bool
has_prefix s [] = true
has_prefix [] (c ∷ p) = false
has_prefix (d ∷ s) (c ∷ p) = d == c && has_prefix s p

-- `s[len(p):]`
unfoldable pub drop_prefix : (s p : Text) → Text
drop_prefix s [] = s
drop_prefix [] (c ∷ p) = []
drop_prefix (d ∷ s) (c ∷ p) = drop_prefix s p

-- `strings.TrimPrefix`
unfoldable pub trim_prefix : (s p : Text) → Text
trim_prefix s p = if has_prefix s p then drop_prefix s p else s

module _ (prefix : Text) where
  unfoldable pub prefixed_topic : Text → Text
  prefixed_topic topic =
      if is_empty topic then topic else if is_empty prefix then topic else prefix ++ topic

  unfoldable pub prefixed_topics : List Text → List Text
  prefixed_topics topics = map prefixed_topic topics

  unfoldable pub logical_topic : Text → Text
  logical_topic topic =
      if is_empty prefix || is_empty topic then topic else trim_prefix topic prefix

-- ===== src/Core/Serializers.antt =====
-- The serializers of the services, which call an ObjectMapper of Jackson: of FlowSerializer.java and
-- FlowDeserializer.java (kafkatch-core/src/main/java/br/ufes/edu/serdes), of those of Warning,
-- RollingStats and LongSummaryStatistics (kafkatch-notification/src/main/java/br/ufes/edu/serdes),
-- and of App.java of kafkatch-core for its state store.
use kaf_katch.Prelude.{ℕ, ◌≡◌, refl, ap, ◌∙◌, Option, none, some, List}
use kaf_katch.Core.Flow.{Flow}
use kaf_katch.Core.Aggregate.{AggregatedFlow, Serdes, IsFaithful}

-- The value of a record of a topic: none for null.
abbrev pub Value : Type 0
Value = Option (List ℕ)

-- writeValueAsBytes and readValue: none where they throw. `read_value` may also give a null.
pub record ObjectMapper (A : Type 0) : Type 0 where
  pub write_value : A → Option (List ℕ)
  pub read_value : List ℕ → Option (Option A)

module _ {A : Type 0} (mapper : ObjectMapper A) where
  abbrev pub written_bytes : Option (List ℕ) → Option Value
  written_bytes none = none
  written_bytes (some bytes) = some (some bytes)

  -- A RuntimeException is none, null is `some none`.
  unfoldable pub serialize : Option A → Option Value
  serialize none = some none
  serialize (some value) = written_bytes (mapper.write_value value)

  unfoldable pub deserialize : Value → Option (Option A)
  deserialize none = some none
  deserialize (some bytes) = mapper.read_value bytes

  -- The serializer of App.java for aggregates: an exception makes a null.
  unfoldable pub agg_serializer : Option A → Value
  agg_serializer none = none
  agg_serializer (some value) = mapper.write_value value

  abbrev pub or_null : Option (Option A) → Option A
  or_null none = none
  or_null (some o) = o

  unfoldable pub agg_deserializer : Value → Option A
  agg_deserializer none = none
  agg_deserializer (some bytes) = or_null (mapper.read_value bytes)

  -- What is written and read comes back.
  pub record KeepsAll : Type 0 where
    pub bytes : A → List ℕ
    pub writes : (a : A) → mapper.write_value a ≡ some (bytes a)
    pub reads : (a : A) → mapper.read_value (bytes a) ≡ some (some a)

module _ {T D : Type 0} (flows : ObjectMapper (Flow T D))
    (aggs : ObjectMapper (AggregatedFlow T)) where
  -- A value behind a topic, where neither the serializer nor the deserializer throws.
  pub record Regroups (flow : Flow T D) : Type 0 where
    pub value : Value
    pub back : Option (Flow T D)
    pub serialized : serialize flows (some flow) ≡ some value
    pub deserialized : deserialize flows value ≡ some back

  -- The serdes of App.java, for flows at which those of flows do not throw.
  unfoldable pub app_serdes : ((flow : Flow T D) → Regroups flow) → Serdes T D
  unfolding agg_serializer agg_deserializer
  app_serdes regroups = record {
    regroup = λ flow. (regroups flow).back;
    reload = λ agg. agg_deserializer aggs (agg_serializer aggs (some agg));
  }

  Regroups-back : {flow : Flow T D} (r : Regroups flow) → KeepsAll flows → r.back ≡ some flow
  unfolding serialize deserialize
  Regroups-back {flow} r keeps =
      let wrote : serialize flows (some flow) ≡ some (some (keeps.bytes flow)) =
        ap (written_bytes flows) (keeps.writes flow) in
      let serialized = r.serialized in
      let deserialized = r.deserialized in
      let value : r.value ≡ some (keeps.bytes flow) = cc in
      let read : deserialize flows r.value ≡ some (some flow) =
        ap (deserialize flows) value ∙ keeps.reads flow in
      cc

  -- Serializers that keep all lose nothing.
  app_serdes-IsFaithful :
      (regroups : (flow : Flow T D) → Regroups flow)
      → KeepsAll flows
      → KeepsAll aggs
      → IsFaithful (app_serdes regroups)
  unfolding app_serdes agg_serializer agg_deserializer
  app_serdes-IsFaithful regroups keeps keeps' = record {
    regrouped = λ flow. Regroups-back (regroups flow) keeps;
    reloaded = λ agg. rw (keeps'.writes agg, keeps'.reads agg) refl;
  }

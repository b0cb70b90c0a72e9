-- ===== src/Serializer.antt =====
-- rpc_src/serializer: the choice between nlohmann::json and protobuf, which are parameters. A call of
-- theirs that throws is `none`.
use my_rpc_project_v.Base.{
  ◌≡◌, ◌≢◌, refl, [], Option, none, some, Bool, true, false, Bytes, inl, inr, Option-cases,
}

pub data SerializeType : Type 0 where
  json protobuf : SerializeType

-- What `if constexpr` asks of the type: nlohmann::json itself, a message of protobuf, or another one.
pub data Kind : Type 0 where
  is_json is_message is_other : Kind

-- The calls for a type A: dump and parse of its JSON, SerializeAsString and ParseFromString. The
-- last says whether it has parsed.
pub record Library (A : Type 0) : Type 0 where
  pub dump : A → Option Bytes
  pub parse : Bytes → Option A
  pub serialize_as_string : A → Option Bytes
  pub parse_from_string : Bytes → Option (A × Bool)

module _ {A : Type 0} (l : Library A) where
  abbrev or_empty : Option Bytes → Bytes
  or_empty none = []
  or_empty (some text) = text

  unfoldable pub json_serialize : A → Bytes
  json_serialize a = or_empty (l.dump a)

  -- The value behind the reference, and the result.
  unfoldable pub json_deserialize : Bytes → A → A × Bool
  json_deserialize buffer a = elim (l.parse buffer) [ none ↦ (a, false) | some v ↦ (v, true) ]

  unfoldable pub protobuf_serialize : A → Bytes
  protobuf_serialize a = or_empty (l.serialize_as_string a)

  unfoldable pub protobuf_deserialize : Bytes → A → A × Bool
  protobuf_deserialize buffer a = elim (l.parse_from_string buffer) [
    | none ↦ (a, false)
    | some (new_data, parsed) ↦ elim parsed [ true ↦ (new_data, true) | false ↦ (a, false) ]
  ]

  unfoldable pub serialize : Kind → SerializeType → A → Bytes
  unfolding json_serialize protobuf_serialize
  serialize is_json json a = json_serialize a
  serialize is_message json a = []
  serialize is_other json a = []
  serialize is_json protobuf a = []
  serialize is_message protobuf a = protobuf_serialize a
  serialize is_other protobuf a = []

  unfoldable pub deserialize : Kind → SerializeType → Bytes → A → A × Bool
  unfolding json_deserialize protobuf_deserialize
  deserialize is_json json buffer a = json_deserialize buffer a
  deserialize is_message json buffer a = (a, false)
  deserialize is_other json buffer a = (a, false)
  deserialize is_json protobuf buffer a = (a, false)
  deserialize is_message protobuf buffer a = protobuf_deserialize buffer a
  deserialize is_other protobuf buffer a = (a, false)

  -- What was dumped is parsed, by either library.
  pub record IsFaithful : Type 0 where
    pub parse-dump : (a : A) (text : Bytes) → l.dump a ≡ some text → l.parse text ≡ some a
    pub parse-serialize :
        (a : A) (text : Bytes)
        → l.serialize_as_string a ≡ some text
        → l.parse_from_string text ≡ some (a, true)

  module _ (faithful : IsFaithful) where
    json_round :
        (a old : A) → json_serialize a ≢ [] → json_deserialize (json_serialize a) old ≡ (a, true)
    unfolding json_serialize json_deserialize
    json_round a old full = elim (Option-cases (l.dump a)) [
      | inl e ↦ absurd (full (rw e refl))
      | inr (text, e) ↦ rw e (rw (faithful.parse-dump a text e, json_deserialize) refl)
    ]

    protobuf_round :
        (a old : A)
        → protobuf_serialize a ≢ []
        → protobuf_deserialize (protobuf_serialize a) old ≡ (a, true)
    unfolding protobuf_serialize protobuf_deserialize
    protobuf_round a old full = elim (Option-cases (l.serialize_as_string a)) [
      | inl e ↦ absurd (full (rw e refl))
      | inr (text, e) ↦ rw e (rw (faithful.parse-serialize a text e, protobuf_deserialize) refl)
    ]

  -- For a JSON library and a protobuf that read back what they write: a text that is not empty is
  -- read back by deserialize with the same type as the value that it was made of, whatever was there.
  pub deserialize-serialize_value :
      (faithful : IsFaithful) (kind : Kind) (type : SerializeType) (a old : A)
      → serialize kind type a ≢ []
      → deserialize kind type (serialize kind type a) old ≡ (a, true)
  unfolding serialize deserialize
  deserialize-serialize_value faithful is_json json a old full = json_round faithful a old full
  deserialize-serialize_value faithful is_message json a old full = absurd (full refl)
  deserialize-serialize_value faithful is_other json a old full = absurd (full refl)
  deserialize-serialize_value faithful is_json protobuf a old full = absurd (full refl)
  deserialize-serialize_value faithful is_message protobuf a old full =
      protobuf_round faithful a old full
  deserialize-serialize_value faithful is_other protobuf a old full = absurd (full refl)

-- ===== src/Descriptor/FieldDescriptorProto.antt =====
-- `FieldDescriptorProto` of web/src/generated/google/protobuf/descriptor.ts: the message and its
-- generated functions.
pub mod RoundTrip
pub mod Json
use sample_grpc_service.Prelude.{
  ℕ, String, Bool, false, Option, none, some, ◌/◌, ◌==◌, if◌then◌else◌, true,
}
use sample_grpc_service.Prelude.Outcome.{Outcome, ok, ◌>>=◌}
use sample_grpc_service.Partial.{get_or}
use sample_grpc_service.Wire.{Field, on_case, ◌▸◌, ◌◃◌, write_message?, decode_with, read_message}
use sample_grpc_service.Js.{Js, obj, set_message?, message_field}
use sample_grpc_service.Proto.{Runtime, In, Out, text, flag, int32, write_or, read}
use sample_grpc_service.Proto.Json.{
  no_props, js_text, js_flag, js_integer, field_or, field_either, set_or,
}
use sample_grpc_service.Descriptor.FieldDescriptorProtoLabel
use sample_grpc_service.Descriptor.FieldDescriptorProtoType
use sample_grpc_service.Descriptor.FieldOptions
use sample_grpc_service.Descriptor.FieldOptions.{FieldOptions, FieldOptionsPartial}
use mathlib.Core.Option

pub record FieldDescriptorProto : Type 0 where
  pub name : Option String
  pub number : Option String
  pub label : Option String
  pub type : Option String
  pub type_name : Option String
  pub extendee : Option String
  pub default_value : Option String
  pub oneof_index : Option String
  pub json_name : Option String
  pub options : Option FieldOptions
  pub proto3_optional : Option Bool

-- What `fromPartial` takes: each property may be missing, `null` or `undefined`.
pub record FieldDescriptorProtoPartial : Type 0 where
  pub name : Option String
  pub number : Option String
  pub label : Option String
  pub type : Option String
  pub type_name : Option String
  pub extendee : Option String
  pub default_value : Option String
  pub oneof_index : Option String
  pub json_name : Option String
  pub options : Option FieldOptionsPartial
  pub proto3_optional : Option Bool

unfoldable pub create_base : FieldDescriptorProto
create_base = record {
  name = some "";
  number = some "0";
  label = some "1";
  type = some "1";
  type_name = some "";
  extendee = some "";
  default_value = some "";
  oneof_index = some "0";
  json_name = some "";
  options = none;
  proto3_optional = some false;
}

module _ (e : Runtime) where
  unfoldable pub encode : FieldDescriptorProto → Out e → Out e
  encode m x =
      x
      ▸ write_or e (text e) 10 "" m.name
      ▸ write_or e (int32 e) 24 "0" m.number
      ▸ write_or e (int32 e) 32 "1" m.label
      ▸ write_or e (int32 e) 40 "1" m.type
      ▸ write_or e (text e) 50 "" m.type_name
      ▸ write_or e (text e) 18 "" m.extendee
      ▸ write_or e (text e) 58 "" m.default_value
      ▸ write_or e (int32 e) 72 "0" m.oneof_index
      ▸ write_or e (text e) 82 "" m.json_name
      ▸ write_message? e.wire (FieldOptions.encode e) 66 m.options
      ▸ write_or e (flag e) 136 false m.proto3_optional

  -- The `switch` of `decode`.
  unfoldable pub field : Field e.wire FieldDescriptorProto
  field self tag m r =
      on_case 1 10 tag (read e (text e) r (λ v. record m { name = some v }))
      ◃ on_case 3 24 tag (read e (int32 e) r (λ v. record m { number = some v }))
      ◃ on_case 4 32 tag (read e (int32 e) r (λ v. record m { label = some v }))
      ◃ on_case 5 40 tag (read e (int32 e) r (λ v. record m { type = some v }))
      ◃ on_case 6 50 tag (read e (text e) r (λ v. record m { type_name = some v }))
      ◃ on_case 2 18 tag (read e (text e) r (λ v. record m { extendee = some v }))
      ◃ on_case 7 58 tag (read e (text e) r (λ v. record m { default_value = some v }))
      ◃ on_case 9 72 tag (read e (int32 e) r (λ v. record m { oneof_index = some v }))
      ◃ on_case 10 82 tag (read e (text e) r (λ v. record m { json_name = some v }))
      ◃ on_case 8 66 tag
          (read_message e.wire (FieldOptions.decode e) r (λ v. record m { options = some v }))
      ◃ on_case 17 136 tag (read e (flag e) r (λ v. record m { proto3_optional = some v }))
      ◃ none

  unfoldable pub decode : In e → Option ℕ → Outcome (FieldDescriptorProto × In e)
  unfolding create_base
  decode r len = decode_with e.wire field create_base r len

  unfoldable pub from_json : Js → Outcome FieldDescriptorProto
  from_json o = do
    name' ← field_or js_text "name" "" o
    number' ← field_or (js_integer e) "number" "0" o
    label' ← field_or FieldDescriptorProtoLabel.scalar "label" "1" o
    type' ← field_or FieldDescriptorProtoType.scalar "type" "1" o
    type_name' ← field_either js_text "typeName" "type_name" "" o
    extendee' ← field_or js_text "extendee" "" o
    default_value' ← field_either js_text "defaultValue" "default_value" "" o
    oneof_index' ← field_either (js_integer e) "oneofIndex" "oneof_index" "0" o
    json_name' ← field_either js_text "jsonName" "json_name" "" o
    options' ← message_field (FieldOptions.from_json e) "options" o
    proto3_optional' ← field_either js_flag "proto3Optional" "proto3_optional" false o
    ok (record {
      name = name';
      number = number';
      label = label';
      type = type';
      type_name = type_name';
      extendee = extendee';
      default_value = default_value';
      oneof_index = oneof_index';
      json_name = json_name';
      options = options';
      proto3_optional = proto3_optional';
    })

  unfoldable pub to_json : FieldDescriptorProto → Js
  to_json m = obj (
      no_props
      ▸ set_or js_text "name" "" m.name
      ▸ set_or (js_integer e) "number" "0" m.number
      ▸ set_or FieldDescriptorProtoLabel.scalar "label" "1" m.label
      ▸ set_or FieldDescriptorProtoType.scalar "type" "1" m.type
      ▸ set_or js_text "typeName" "" m.type_name
      ▸ set_or js_text "extendee" "" m.extendee
      ▸ set_or js_text "defaultValue" "" m.default_value
      ▸ set_or (js_integer e) "oneofIndex" "0" m.oneof_index
      ▸ set_or js_text "jsonName" "" m.json_name
      ▸ set_message? "options" (FieldOptions.to_json e) m.options
      ▸ set_or js_flag "proto3Optional" false m.proto3_optional)

unfoldable pub from_partial : FieldDescriptorProtoPartial → FieldDescriptorProto
unfolding create_base
from_partial o = record create_base {
  name = some (get_or "" o.name);
  number = some (get_or "0" o.number);
  label = some (get_or "1" o.label);
  type = some (get_or "1" o.type);
  type_name = some (get_or "" o.type_name);
  extendee = some (get_or "" o.extendee);
  default_value = some (get_or "" o.default_value);
  oneof_index = some (get_or "0" o.oneof_index);
  json_name = some (get_or "" o.json_name);
  options = Option.map FieldOptions.from_partial o.options;
  proto3_optional = some (get_or false o.proto3_optional);
}

abbrev nothing : FieldDescriptorProtoPartial
nothing = record {
  name = none;
  number = none;
  label = none;
  type = none;
  type_name = none;
  extendee = none;
  default_value = none;
  oneof_index = none;
  json_name = none;
  options = none;
  proto3_optional = none;
}

-- `create(base)`; `base ?? {}`
unfoldable pub create : Option FieldDescriptorProtoPartial → FieldDescriptorProto
unfolding from_partial
create base = from_partial (get_or nothing base)

-- The message with its missing values at their defaults.
unfoldable pub fill : FieldDescriptorProto → FieldDescriptorProto
fill m = record {
  name = some (get_or "" m.name);
  number = some (get_or "0" m.number);
  label = some (get_or "1" m.label);
  type = some (get_or "1" m.type);
  type_name = some (get_or "" m.type_name);
  extendee = some (get_or "" m.extendee);
  default_value = some (get_or "" m.default_value);
  oneof_index = some (get_or "0" m.oneof_index);
  json_name = some (get_or "" m.json_name);
  options = Option.map FieldOptions.fill m.options;
  proto3_optional = some (get_or false m.proto3_optional);
}

-- ===== src/Descriptor/UninterpretedOption.antt =====
-- `UninterpretedOption` of web/src/generated/google/protobuf/descriptor.ts: the message and its
-- generated functions.
pub mod RoundTrip
pub mod Json
use sample_grpc_service.Prelude.{
  ℕ, String, Option, none, some, List, [], ◌∷◌, ◌++◌, map, ◌/◌, ◌==◌, if◌then◌else◌, true, false,
}
use sample_grpc_service.Prelude.Outcome.{Outcome, ok, ◌>>=◌}
use sample_grpc_service.Partial.{get_or}
use sample_grpc_service.Wire.{Field, on_case, ◌▸◌, ◌◃◌, write_messages, decode_with, read_message}
use sample_grpc_service.Js.{Js, obj, get_prop?, set_array, array_field}
use sample_grpc_service.Proto.{Runtime, In, Out, text, uint64, int64, double, raw, write_or, read}
use sample_grpc_service.Proto.Json.{
  no_props, js_text, js_integer, js_double, js_raw, field_either, set_or,
}
use sample_grpc_service.Descriptor.UninterpretedOptionNamePart
use sample_grpc_service.Descriptor.UninterpretedOptionNamePart.{
  UninterpretedOptionNamePart, UninterpretedOptionNamePartPartial,
}
use mathlib.Core.Option

pub record UninterpretedOption : Type 0 where
  pub name : List UninterpretedOptionNamePart
  pub identifier_value : Option String
  pub positive_int_value : Option String
  pub negative_int_value : Option String
  pub double_value : Option String
  pub string_value : Option (List ℕ)
  pub aggregate_value : Option String

-- What `fromPartial` takes: each property may be missing, `null` or `undefined`.
pub record UninterpretedOptionPartial : Type 0 where
  pub name : Option (List UninterpretedOptionNamePartPartial)
  pub identifier_value : Option String
  pub positive_int_value : Option String
  pub negative_int_value : Option String
  pub double_value : Option String
  pub string_value : Option (List ℕ)
  pub aggregate_value : Option String

unfoldable pub create_base : UninterpretedOption
create_base = record {
  name = [];
  identifier_value = some "";
  positive_int_value = some "0";
  negative_int_value = some "0";
  double_value = some "0";
  string_value = some [];
  aggregate_value = some "";
}

module _ (e : Runtime) where
  unfoldable pub encode : UninterpretedOption → Out e → Out e
  encode m x =
      x
      ▸ write_messages e.wire (UninterpretedOptionNamePart.encode e) 18 m.name
      ▸ write_or e (text e) 26 "" m.identifier_value
      ▸ write_or e (uint64 e) 32 "0" m.positive_int_value
      ▸ write_or e (int64 e) 40 "0" m.negative_int_value
      ▸ write_or e (double e) 49 "0" m.double_value
      ▸ write_or e (raw e) 58 [] m.string_value
      ▸ write_or e (text e) 66 "" m.aggregate_value

  -- The `switch` of `decode`.
  unfoldable pub field : Field e.wire UninterpretedOption
  field self tag m r =
      on_case 2 18 tag (
        read_message e.wire (UninterpretedOptionNamePart.decode e) r
          (λ v. record m { name = m.name ++ (v ∷ []) }))
      ◃ on_case 3 26 tag (read e (text e) r (λ v. record m { identifier_value = some v }))
      ◃ on_case 4 32 tag (read e (uint64 e) r (λ v. record m { positive_int_value = some v }))
      ◃ on_case 5 40 tag (read e (int64 e) r (λ v. record m { negative_int_value = some v }))
      ◃ on_case 6 49 tag (read e (double e) r (λ v. record m { double_value = some v }))
      ◃ on_case 7 58 tag (read e (raw e) r (λ v. record m { string_value = some v }))
      ◃ on_case 8 66 tag (read e (text e) r (λ v. record m { aggregate_value = some v }))
      ◃ none

  unfoldable pub decode : In e → Option ℕ → Outcome (UninterpretedOption × In e)
  unfolding create_base
  decode r len = decode_with e.wire field create_base r len

  unfoldable pub from_json : Js → Outcome UninterpretedOption
  from_json o = do
    name' ← array_field (UninterpretedOptionNamePart.from_json e) (get_prop? "name" o)
    identifier_value' ← field_either js_text "identifierValue" "identifier_value" "" o
    positive_int_value' ← field_either (js_integer e) "positiveIntValue" "positive_int_value" "0" o
    negative_int_value' ← field_either (js_integer e) "negativeIntValue" "negative_int_value" "0" o
    double_value' ← field_either (js_double e) "doubleValue" "double_value" "0" o
    string_value' ← field_either (js_raw e) "stringValue" "string_value" [] o
    aggregate_value' ← field_either js_text "aggregateValue" "aggregate_value" "" o
    ok (record {
      name = name';
      identifier_value = identifier_value';
      positive_int_value = positive_int_value';
      negative_int_value = negative_int_value';
      double_value = double_value';
      string_value = string_value';
      aggregate_value = aggregate_value';
    })

  unfoldable pub to_json : UninterpretedOption → Js
  to_json m = obj (
      no_props
      ▸ set_array "name" (UninterpretedOptionNamePart.to_json e) m.name
      ▸ set_or js_text "identifierValue" "" m.identifier_value
      ▸ set_or (js_integer e) "positiveIntValue" "0" m.positive_int_value
      ▸ set_or (js_integer e) "negativeIntValue" "0" m.negative_int_value
      ▸ set_or (js_double e) "doubleValue" "0" m.double_value
      ▸ set_or (js_raw e) "stringValue" [] m.string_value
      ▸ set_or js_text "aggregateValue" "" m.aggregate_value)

unfoldable pub from_partial : UninterpretedOptionPartial → UninterpretedOption
unfolding create_base
from_partial o = record create_base {
  name = get_or [] (Option.map (map UninterpretedOptionNamePart.from_partial) o.name);
  identifier_value = some (get_or "" o.identifier_value);
  positive_int_value = some (get_or "0" o.positive_int_value);
  negative_int_value = some (get_or "0" o.negative_int_value);
  double_value = some (get_or "0" o.double_value);
  string_value = some (get_or [] o.string_value);
  aggregate_value = some (get_or "" o.aggregate_value);
}

abbrev nothing : UninterpretedOptionPartial
nothing = record {
  name = none;
  identifier_value = none;
  positive_int_value = none;
  negative_int_value = none;
  double_value = none;
  string_value = none;
  aggregate_value = none;
}

-- `create(base)`; `base ?? {}`
unfoldable pub create : Option UninterpretedOptionPartial → UninterpretedOption
unfolding from_partial
create base = from_partial (get_or nothing base)

-- The message with its missing values at their defaults.
unfoldable pub fill : UninterpretedOption → UninterpretedOption
fill m = record {
  name = map UninterpretedOptionNamePart.fill m.name;
  identifier_value = some (get_or "" m.identifier_value);
  positive_int_value = some (get_or "0" m.positive_int_value);
  negative_int_value = some (get_or "0" m.negative_int_value);
  double_value = some (get_or "0" m.double_value);
  string_value = some (get_or [] m.string_value);
  aggregate_value = some (get_or "" m.aggregate_value);
}

-- ===== src/GoogleApi/HttpRule/Json.antt =====
-- The JSON and the partials of HttpRule in
-- web/src/generated/google/api/http.ts.
use mathlib.Core.Option
use sample_grpc_service.Prelude.{◌≡◌, refl, String, true, none, some, str_eq, inl, inr, Bool-cases}
use sample_grpc_service.Prelude.Outcome.{ok}
use sample_grpc_service.Partial.{Option-map-inverse}
use sample_grpc_service.Js.{Js, undefined, arr, obj, cons, Props, end, prop, own, set_prop, is_set}
use sample_grpc_service.Js.Laws.{own_laws, read_laws, message_or_undefined-default, is_set-obj}
use sample_grpc_service.GoogleApi.HttpRule.Fields.{Plain, PlainPartial, plain_partial}
use sample_grpc_service.GoogleApi.HttpRule.{
  HttpRule, rule, Rules, none_left, first, plain_from_json, from_json, rules_at, rules_in, rules_of,
  plain_props, to_json, items_of, HttpRulePartial, partial, given, PartialRules, none_given,
  first_given, from_partial, rules_from,
}
use sample_grpc_service.GoogleApi.CustomHttpPattern
use sample_grpc_service.GoogleApi.CustomHttpPattern.Json as PatternJson

rules_at-own : (k : String) (ps : Props) → rules_at k ps ≡ rules_in (own k ps)
unfolding from_json own
rules_at-own k end = refl
rules_at-own k (prop j v ps) = elim (Bool-cases (str_eq j k)) [
  | inl same ↦ rw same
  | inr other ↦ rw other (rules_at-own k ps)
]

plain_taken_back : (p : Plain) → plain_from_json (obj (plain_props p)) ≡ ok p
unfolding plain_from_json plain_props
plain_taken_back p =
    simp (own_laws, read_laws)
      (rw (
        message_or_undefined-default CustomHttpPattern.to_json CustomHttpPattern.from_json p.custom
          PatternJson.custom_http_pattern_from_json-to_json PatternJson.is_set-to_json))

plain_taken_back_beside :
    (p : Plain) (v : Js)
    → plain_from_json (obj (set_prop "additionalBindings" v (plain_props p))) ≡ ok p
unfolding plain_from_json plain_props
plain_taken_back_beside p v =
    simp (own_laws, read_laws)
      (rw (
        message_or_undefined-default CustomHttpPattern.to_json CustomHttpPattern.from_json p.custom
          PatternJson.custom_http_pattern_from_json-to_json PatternJson.is_set-to_json))

no_bindings :
    (p : Plain) (k : String) → own k (plain_props p) ≡ undefined → rules_at k (plain_props p) ≡ none
unfolding from_json
no_bindings p k h = rw (rules_at-own k (plain_props p)) (rw h)

own_camel : (p : Plain) → own "additionalBindings" (plain_props p) ≡ undefined
unfolding plain_props
own_camel p = simp own_laws

own_snake : (p : Plain) → own "additional_bindings" (plain_props p) ≡ undefined
unfolding plain_props
own_snake p = simp own_laws

bindings_at :
    (p : Plain) (v : Js)
    → rules_at "additionalBindings" (set_prop "additionalBindings" v (plain_props p)) ≡ rules_in v
bindings_at p v =
    rw (rules_at-own "additionalBindings" (set_prop "additionalBindings" v (plain_props p)))
      (simp own_laws)

mutual
  unfolding from_json to_json

  taken_back : (m : HttpRule) → from_json (to_json m) ≡ ok m
  taken_back (rule p none_left) = rw (
    plain_taken_back p,
    no_bindings p "additionalBindings" (own_camel p),
    no_bindings p "additional_bindings" (own_snake p),
  )
  taken_back (rule p (first v rules)) =
      rw
        (
          plain_taken_back_beside p (arr (cons (to_json v) (items_of rules))),
          bindings_at p (arr (cons (to_json v) (items_of rules))),
        )
        (rw (taken_back v, items_taken_back rules))

  items_taken_back : (l : Rules) → rules_of (items_of l) ≡ ok l
  items_taken_back none_left = refl
  items_taken_back (first v rules) = rw (taken_back v, items_taken_back rules)

-- `fromJSON` of what `toJSON` gives for a message of HttpRule succeeds with that message.
pub http_rule_from_json-to_json : (m : HttpRule) → from_json (to_json m) ≡ ok m
http_rule_from_json-to_json m = taken_back m

pub is_set-to_json : (m : HttpRule) → is_set (to_json m) ≡ true
unfolding to_json
is_set-to_json (rule p none_left) = is_set-obj _
is_set-to_json (rule p (first v rules)) = is_set-obj _

-- All of a message, as an argument of `fromPartial`.
abbrev plain_whole : Plain → PlainPartial
plain_whole p = record {
  selector = some p.selector;
  get = p.get;
  put = p.put;
  post = p.post;
  delete = p.delete;
  patch = p.patch;
  custom = Option.map PatternJson.whole p.custom;
  body = some p.body;
  response_body = some p.response_body;
}

unfoldable mutual
  pub whole : HttpRule → HttpRulePartial
  whole (rule p bindings) = partial (plain_whole p) (given (rules_whole bindings))

  rules_whole : Rules → PartialRules
  rules_whole none_left = none_given
  rules_whole (first v rules) = first_given (whole v) (rules_whole rules)

plain_completed : (p : Plain) → plain_partial (plain_whole p) ≡ p
unfolding plain_partial
plain_completed p = rw (
    Option-map-inverse PatternJson.whole CustomHttpPattern.from_partial
      PatternJson.custom_http_pattern_from_partial-whole p.custom)

mutual
  unfolding from_partial whole

  completed : (m : HttpRule) → from_partial (whole m) ≡ m
  completed (rule p bindings) = rw (plain_completed p, rules_completed bindings)

  rules_completed : (l : Rules) → rules_from (rules_whole l) ≡ l
  rules_completed none_left = refl
  rules_completed (first v rules) = rw (completed v, rules_completed rules)

-- `fromPartial` of all the properties of an HttpRule, those of its nested bindings included, gives
-- the rule itself.
pub http_rule_from_partial-whole : (m : HttpRule) → from_partial (whole m) ≡ m
http_rule_from_partial-whole m = completed m

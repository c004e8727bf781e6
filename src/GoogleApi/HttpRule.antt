-- ===== src/GoogleApi/HttpRule.antt =====
-- `HttpRule` of web/src/generated/google/api/http.ts: the message, which holds a list of itself, and
-- its generated functions.
pub mod PlainTrip
pub mod RoundTrip
pub mod Json
pub mod Fields
use sample_grpc_service.Prelude.{
  ℕ, ◌+◌, ◌/◌, String, Option, none, some, if◌then◌else◌, str_eq, length,
}
use sample_grpc_service.Prelude.Outcome.{Outcome, ok, throw, type_error, ◌>>=◌}
use sample_grpc_service.Wire.{
  Wire, Writer, Reader, Decoder, Field, on_case, ◌▸◌, ◌◃◌, write_string, write_string?,
  write_message?, decode_with, read_string, read_message,
}
use sample_grpc_service.Js.{
  Js, undefined, null, bool, number, str, arr, obj, Items, nil, cons, Props, end, prop,
  string_field, string_field?, string_field_either, message_field, set_prop, set_string,
  set_string?, set_message?,
}
use sample_grpc_service.GoogleApi.CustomHttpPattern
use Fields.{Plain, PlainPartial, plain_base, plain_partial}

mutual
  pub data HttpRule : Type 0 where
    rule : Plain → Rules → HttpRule

  pub data Rules : Type 0 where
    none_left : Rules
    first : HttpRule → Rules → Rules

abbrev pub plain : HttpRule → Plain
plain (rule p bindings) = p

abbrev pub with_plain : HttpRule → Plain → HttpRule
with_plain (rule p bindings) p' = rule p' bindings

-- `message.additionalBindings.push(v)`
abbrev pub push : Rules → HttpRule → Rules
push none_left v = first v none_left
push (first u rules) v = first u (push rules v)

abbrev pub push_binding : HttpRule → HttpRule → HttpRule
push_binding (rule p bindings) v = rule p (push bindings v)

unfoldable pub create_base : HttpRule
unfolding plain_base
create_base = rule plain_base none_left

module _ (w : Wire) where
  unfoldable pub encode_plain : Plain → Writer w.Byte → Writer w.Byte
  encode_plain p x =
      x
      ▸ write_string w 10 p.selector
      ▸ write_string? w 18 p.get
      ▸ write_string? w 26 p.put
      ▸ write_string? w 34 p.post
      ▸ write_string? w 42 p.delete
      ▸ write_string? w 50 p.patch
      ▸ write_message? w (CustomHttpPattern.encode w) 66 p.custom
      ▸ write_string w 58 p.body
      ▸ write_string w 98 p.response_body

  unfoldable mutual
    unfolding encode_plain

    pub encode : HttpRule → Writer w.Byte → Writer w.Byte
    encode (rule p bindings) x = encode_bindings bindings (encode_plain p x)

    pub encode_bindings : Rules → Writer w.Byte → Writer w.Byte
    encode_bindings none_left x = x
    encode_bindings (first v rules) x =
        encode_bindings rules (w.join (encode v (w.fork (w.put_uint32 90 x))))

  -- `HttpRule.decode(reader, length)` inside the loop: the same loop, on a new message.
  abbrev pub decode_inside :
      Decoder w HttpRule → Reader w.Byte → Option ℕ → Outcome (HttpRule × Reader w.Byte)
  decode_inside self r none = self (r.pos + length r.rest) create_base r
  decode_inside self r (some n) = self (r.pos + n) create_base r

  -- The `switch` of `decode`.
  unfoldable pub field : Field w HttpRule
  field self tag m r =
      on_case 1 10 tag (read_string w r (λ v. with_plain m (record (plain m) { selector = v })))
      ◃ on_case 2 18 tag (read_string w r (λ v. with_plain m (record (plain m) { get = some v })))
      ◃ on_case 3 26 tag (read_string w r (λ v. with_plain m (record (plain m) { put = some v })))
      ◃ on_case 4 34 tag (read_string w r (λ v. with_plain m (record (plain m) { post = some v })))
      ◃ on_case 5 42 tag
          (read_string w r (λ v. with_plain m (record (plain m) { delete = some v })))
      ◃ on_case 6 50 tag (read_string w r (λ v. with_plain m (record (plain m) { patch = some v })))
      ◃ on_case 8 66 tag (
          read_message w (CustomHttpPattern.decode w) r
            (λ v. with_plain m (record (plain m) { custom = some v })))
      ◃ on_case 7 58 tag (read_string w r (λ v. with_plain m (record (plain m) { body = v })))
      ◃ on_case 12 98 tag
          (read_string w r (λ v. with_plain m (record (plain m) { response_body = v })))
      ◃ on_case 11 90 tag (read_message w (decode_inside self) r (push_binding m))
      ◃ none

  unfoldable pub decode : Reader w.Byte → Option ℕ → Outcome (HttpRule × Reader w.Byte)
  unfolding create_base
  decode r len = decode_with w field create_base r len

unfoldable pub plain_from_json : Js → Outcome Plain
plain_from_json o = do
  selector' ← string_field "selector" o
  get' ← string_field? "get" o
  put' ← string_field? "put" o
  post' ← string_field? "post" o
  delete' ← string_field? "delete" o
  patch' ← string_field? "patch" o
  custom' ← message_field CustomHttpPattern.from_json "custom" o
  body' ← string_field "body" o
  response_body' ← string_field_either "responseBody" "response_body" o
  ok (record {
    selector = selector';
    get = get';
    put = put';
    post = post';
    delete = delete';
    patch = patch';
    custom = custom';
    body = body';
    response_body = response_body';
  })

abbrev pub first_some {ℓ} : {A : Type ℓ} → Option A → Option A → A → A
first_some (some a) o d = a
first_some none (some a) d = a
first_some none none d = d

-- `fromJSON`; `rules_at k` is `Array.isArray(o?.k) ? o.k.map(fromJSON) : …`.
unfoldable mutual
  unfolding plain_from_json

  pub from_json : Js → Outcome HttpRule
  from_json undefined = throw (type_error "Cannot read properties of undefined")
  from_json null = throw (type_error "Cannot read properties of null")
  from_json (obj ps) = do
    p ← plain_from_json (obj ps)
    bindings ←
        first_some (rules_at "additionalBindings" ps) (rules_at "additional_bindings" ps)
          (ok none_left)
    ok (rule p bindings)
  from_json (bool b) = do p ← plain_from_json (bool b); ok (rule p none_left)
  from_json (number n) = do p ← plain_from_json (number n); ok (rule p none_left)
  from_json (str s) = do p ← plain_from_json (str s); ok (rule p none_left)
  from_json (arr vs) = do p ← plain_from_json (arr vs); ok (rule p none_left)

  pub rules_at : String → Props → Option (Outcome Rules)
  rules_at k end = none
  rules_at k (prop j v ps) =
      let here = rules_in v in let later = rules_at k ps in if str_eq j k then here else later

  pub rules_in : Js → Option (Outcome Rules)
  rules_in (arr vs) = some (rules_of vs)
  rules_in undefined = none
  rules_in null = none
  rules_in (bool b) = none
  rules_in (number n) = none
  rules_in (str s) = none
  rules_in (obj ps) = none

  pub rules_of : Items → Outcome Rules
  rules_of nil = ok none_left
  rules_of (cons v vs) = do r ← from_json v; rules ← rules_of vs; ok (first r rules)

unfoldable pub plain_props : Plain → Props
plain_props p =
    end
    ▸ set_string "selector" p.selector
    ▸ set_string? "get" p.get
    ▸ set_string? "put" p.put
    ▸ set_string? "post" p.post
    ▸ set_string? "delete" p.delete
    ▸ set_string? "patch" p.patch
    ▸ set_message? "custom" CustomHttpPattern.to_json p.custom
    ▸ set_string "body" p.body
    ▸ set_string "responseBody" p.response_body

unfoldable mutual
  unfolding plain_props

  pub to_json : HttpRule → Js
  to_json (rule p none_left) = obj (plain_props p)
  to_json (rule p (first v rules)) =
      obj (set_prop "additionalBindings" (arr (cons (to_json v) (items_of rules))) (plain_props p))

  pub items_of : Rules → Items
  items_of none_left = nil
  items_of (first v rules) = cons (to_json v) (items_of rules)

mutual
  pub data HttpRulePartial : Type 0 where
    partial : PlainPartial → PartialBindings → HttpRulePartial

  pub data PartialBindings : Type 0 where
    missing : PartialBindings
    given : PartialRules → PartialBindings

  pub data PartialRules : Type 0 where
    none_given : PartialRules
    first_given : HttpRulePartial → PartialRules → PartialRules

unfoldable mutual
  unfolding plain_partial

  pub from_partial : HttpRulePartial → HttpRule
  from_partial (partial p bindings) = rule (plain_partial p) (bindings_from bindings)

  pub bindings_from : PartialBindings → Rules
  bindings_from missing = none_left
  bindings_from (given rules) = rules_from rules

  pub rules_from : PartialRules → Rules
  rules_from none_given = none_left
  rules_from (first_given v rules) = first (from_partial v) (rules_from rules)

abbrev nothing : HttpRulePartial
nothing =
    partial
      (record {
        selector = none;
        get = none;
        put = none;
        post = none;
        delete = none;
        patch = none;
        custom = none;
        body = none;
        response_body = none;
      })
      missing

-- `create(base)`; `base ?? {}`
unfoldable pub create : Option HttpRulePartial → HttpRule
unfolding from_partial
create none = from_partial nothing
create (some base) = from_partial base

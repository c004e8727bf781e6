-- ===== src/Frontend/Echo/Screen.antt =====
-- What the form of web/src/App.tsx shows of its state.
use sample_grpc_service.Prelude.{
  ◌≡◌, inl, inr, String, Bool, ◌||◌, Option, none, some, str_eq, if◌then◌else◌,
}
use sample_grpc_service.Prelude.Outcome.{Outcome, ok, throw}
use sample_grpc_service.Greeter.EchoReply.{EchoReply}
use sample_grpc_service.Frontend.Echo.{Form, empty_form, trim, message_of, Reach}
use sample_grpc_service.Frontend.Echo.InFlight.{IsOrderly, idle, waiting, Reach-IsOrderly}

pub record Screen : Type 0 where
  pub value : String
  pub input_disabled : Bool
  pub button_disabled : Bool
  -- the paragraphs under the form, in their order
  pub status : Option String
  pub error : Option String
  pub response : Option String

-- `error && …`: the empty text is falsy.
abbrev truthy : Option String → Option String
truthy none = none
truthy (some m) = if str_eq m "" then none else some m

abbrev reply_text : Option EchoReply → Option String
reply_text none = none
reply_text (some reply) = some reply.message

unfoldable pub screen : Form → Screen
unfolding trim
screen f = record {
  value = f.message;
  input_disabled = f.loading;
  button_disabled = f.loading || str_eq (trim f.message) "";
  status = if f.loading then some "Loading..." else none;
  error = truthy f.error;
  response = reply_text f.response;
}

-- At most one of three is there.
pub data OneOf (a b c : Option String) : Type 0 where
  first : b ≡ none → c ≡ none → OneOf a b c
  second : a ≡ none → c ≡ none → OneOf a b c
  third : a ≡ none → b ≡ none → OneOf a b c

abbrev pub shown : Outcome EchoReply → Option String
shown (ok reply) = some reply.message
shown _ = none

abbrev pub failure : Outcome EchoReply → Option String
failure (throw e) = truthy (some (message_of e))
failure _ = none

orderly-OneOf :
    (f : Form) → IsOrderly f → OneOf (screen f).status (screen f).error (screen f).response
unfolding screen
orderly-OneOf f (waiting h) = first (rw h.no_error) (rw h.no_response)
orderly-OneOf f (idle h) = elim h.one_result [
  | inl missing ↦ second (rw h.not_loading) (rw missing)
  | inr missing ↦ third (rw h.not_loading) (rw missing)
]

-- Under the form, a reachable state shows at most one of the loading notice, an error and a reply.
pub screen-OneOf :
    (f : Form) → Reach empty_form f → OneOf (screen f).status (screen f).error (screen f).response
screen-OneOf f r = orderly-OneOf f (Reach-IsOrderly f r)

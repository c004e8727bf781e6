-- ===== src/Frontend/Echo.antt =====
-- web/src/App.tsx: the echo form.
pub mod Trim
pub mod InFlight
pub mod Screen
pub mod Liveness
use sample_grpc_service.Prelude.{
  ℕ, zero, suc, ◌≡◌, ◌≢◌, String, Bool, true, false, not, ◌&&◌, ◌||◌, Option, none, some, List, [],
  ◌∷◌, ◌++◌, str_eq, leb, ◌==◌, if◌then◌else◌,
}
use sample_grpc_service.Prelude.Outcome.{
  Outcome, ok, throw, stuck, Thrown, type_error, wire_error, auth_error, error, ◌>>=◌,
}
use sample_grpc_service.Greeter.EchoRequest
use sample_grpc_service.Greeter.EchoRequest.{EchoRequest}
use sample_grpc_service.Greeter.EchoReply.{EchoReply}
use sample_grpc_service.Js.{Js, obj, str, end, set_prop}
use sample_grpc_service.Partial.{get_or}
use sample_grpc_service.Decimal.{decimal}
use sample_grpc_service.Frontend.Api.{Headers, HttpRequest, HttpResponse, is_ok}
use Prim.Native.Char.{Char, code}
use Prim.Native.String

-- WhiteSpace and LineTerminator of ECMAScript, which `trim` removes.
unfoldable pub is_space : Char → Bool
is_space c =
    (leb 9 (code c) && leb (code c) 13)
    || code c == 32
    || code c == 160
    || code c == 0x1680
    || (leb 0x2000 (code c) && leb (code c) 0x200a)
    || code c == 0x2028
    || code c == 0x2029
    || code c == 0x202f
    || code c == 0x205f
    || code c == 0x3000
    || code c == 0xfeff

unfoldable pub trim_start : String → String
trim_start String.[] = String.[]
trim_start (String.◌∷◌ c s) = let rest = trim_start s in if is_space c then rest else String.◌∷◌ c s

abbrev cons_trimmed : Char → String → String
cons_trimmed c String.[] = if is_space c then String.[] else String.◌∷◌ c String.[]
cons_trimmed c (String.◌∷◌ d s) = String.◌∷◌ c (String.◌∷◌ d s)

unfoldable pub trim_end : String → String
trim_end String.[] = String.[]
trim_end (String.◌∷◌ c s) = cons_trimmed c (trim_end s)

unfoldable pub trim : String → String
unfolding trim_start trim_end
trim s = trim_end (trim_start s)

-- `JSON.stringify(req)`
unfoldable pub echo_body : EchoRequest → Js
unfolding set_prop
echo_body req = obj (set_prop "message" (str req.message) end)

unfoldable pub echo_request : Option String → EchoRequest → HttpRequest
unfolding echo_body
echo_request kong_base req = record {
  url = String.◌++◌ (get_or "" kong_base) "/greeter/api/echo";
  method = "POST";
  headers = ("Content-Type", "application/json") ∷ [];
  body = some (echo_body req);
}

-- `callEcho`; a parsed body is trusted at its declared type.
unfoldable pub call_echo :
    (String → Outcome EchoReply)
    → (HttpRequest → Outcome HttpResponse)
    → Option String
    → EchoRequest
    → Outcome EchoReply
unfolding echo_request decimal
call_echo parse fetch kong_base req = do
  res ← fetch (echo_request kong_base req)
  if is_ok res
      then parse res.text
      else throw (error (String.◌++◌ (decimal res.status) (String.◌++◌ ": " res.text)))

pub record Form : Type 0 where
  pub message : String
  pub response : Option EchoReply
  pub error : Option String
  pub loading : Bool
  -- the calls of `callEcho` that are not settled, by what they sent
  pub in_flight : List EchoRequest

abbrev pub empty_form : Form
empty_form = record { message = ""; response = none; error = none; loading = false; in_flight = [] }

-- `e.message` of an error
abbrev pub message_of : Thrown → String
message_of (type_error m) = m
message_of (wire_error m) = m
message_of (auth_error m) = m
message_of (Thrown.error m) = m

unfoldable pub set_message : String → Form → Form
set_message m f = record f { message = m }

-- `call` up to its `await`
unfoldable pub call : Form → Form
unfolding trim
call f = if str_eq (trim f.message) "" then f else record f {
  response = none;
  error = none;
  loading = true;
  in_flight = f.in_flight ++ (record { message = trim f.message } ∷ []);
}

-- The rest of it.
unfoldable pub settle : Outcome EchoReply → Form → Form
settle (ok reply) f = record f { response = some reply; loading = false }
settle (throw e) f = record f { error = some (message_of e); loading = false }
settle stuck f = f

-- The input and the button act only while they are enabled.
pub data Step : Form → Form → Type 0 where
  typed : {f : Form} (m : String) → f.loading ≡ false → Step f (set_message m f)
  entered : {f : Form} → f.loading ≡ false → Step f (call f)
  clicked : {f : Form} → f.loading ≡ false → str_eq (trim f.message) "" ≡ false → Step f (call f)
  settled :
      {f : Form} (req : EchoRequest) (before after : List EchoRequest) (res : Outcome EchoReply)
      → f.in_flight ≡ before ++ (req ∷ after)
      → res ≢ stuck
      → Step f (settle res (record f { in_flight = before ++ after }))

pub data Reach (f : Form) : Form → Type 0 where
  here : Reach f f
  next : {g h : Form} → Reach f g → Step g h → Reach f h

-- ===== src/Frontend/Echo/InFlight.antt =====
-- The events of the form of web/src/App.tsx, and the call that it has in flight.
use sample_grpc_service.Prelude.{
  ◌≡◌, ◌⊎◌, inl, inr, refl, ap, String, true, false, none, List, [], ◌∷◌, ◌++◌, str_eq, Bool-cases,
}
use sample_grpc_service.Prelude.Outcome.{ok, throw, stuck}
use sample_grpc_service.Greeter.EchoRequest.{EchoRequest}
use sample_grpc_service.Frontend.Echo.{
  Form, empty_form, set_message, call, settle, trim, Step, typed, entered, clicked, settled, Reach,
  here, next,
}

-- Nothing is in flight.
pub record IsIdle (f : Form) : Type 0 where
  pub not_loading : f.loading ≡ false
  pub no_call : f.in_flight ≡ []
  pub one_result : (f.response ≡ none) ⊎ (f.error ≡ none)

-- One call is in flight, of a trimmed message that is not empty, and no result is shown.
pub record IsWaiting (f : Form) : Type 0 where
  pub sent : EchoRequest
  pub loading : f.loading ≡ true
  pub one_call : f.in_flight ≡ sent ∷ []
  pub message : String
  pub trimmed : sent.message ≡ trim message
  pub not_empty : str_eq sent.message "" ≡ false
  pub no_response : f.response ≡ none
  pub no_error : f.error ≡ none

pub data IsOrderly (f : Form) : Type 0 where
  idle : IsIdle f → IsOrderly f
  waiting : IsWaiting f → IsOrderly f

no_split : (before after : List EchoRequest) (x : EchoRequest) → [] ≡ before ++ (x ∷ after) → ⊥
no_split [] after x e = cc e
no_split (y ∷ before) after x e = cc e

split_one :
    (before after : List EchoRequest) (x t : EchoRequest)
    → (t ∷ []) ≡ before ++ (x ∷ after)
    → before ++ after ≡ []
split_one [] after x t e = cc e
split_one (y ∷ before) after x t e = absurd (no_split before after x (cc e))

not_both : {f : Form} → f.loading ≡ false → IsWaiting f → ⊥
not_both e h = cc (e, h.loading)

call-IsOrderly : {f : Form} → f.loading ≡ false → IsOrderly f → IsOrderly (call f)
unfolding call
call-IsOrderly e (waiting h) = absurd (not_both e h)
call-IsOrderly {f} e (idle h) = elim (Bool-cases (str_eq (trim f.message) "")) [
  | inl empty ↦ rw (empty, call) (idle h)
  | inr full ↦
      rw (full, call)
        (waiting (record {
          sent = record { message = trim f.message };
          loading = refl;
          one_call =
              ap (λ (l : List EchoRequest). l ++ (record { message = trim f.message } ∷ []))
                h.no_call;
          message = f.message;
          trimmed = refl;
          not_empty = full;
          no_response = refl;
          no_error = refl;
        }))
]

Step-IsOrderly : {f g : Form} → Step f g → IsOrderly f → IsOrderly g
unfolding settle set_message
Step-IsOrderly (typed m e) (idle h) =
    idle (record { not_loading = h.not_loading; no_call = h.no_call; one_result = h.one_result })
Step-IsOrderly (typed m e) (waiting h) = absurd (not_both e h)
Step-IsOrderly (entered e) o = call-IsOrderly e o
Step-IsOrderly (clicked e full) o = call-IsOrderly e o
Step-IsOrderly (settled req before after res e ne) (idle h) =
    absurd (no_split before after req (cc (e, h.no_call)))
Step-IsOrderly (settled req before after (ok reply) e ne) (waiting h) = idle (record {
  not_loading = refl;
  no_call = split_one before after req h.sent (cc (e, h.one_call));
  one_result = inr h.no_error;
})
Step-IsOrderly (settled req before after (throw x) e ne) (waiting h) = idle (record {
  not_loading = refl;
  no_call = split_one before after req h.sent (cc (e, h.one_call));
  one_result = inl h.no_response;
})
Step-IsOrderly (settled req before after stuck e ne) (waiting h) = absurd (ne refl)

Reach-keeps : {f g : Form} → IsOrderly f → Reach f g → IsOrderly g
Reach-keeps o here = o
Reach-keeps o (next r st) = Step-IsOrderly st (Reach-keeps o r)

-- From the empty form, each state that its events reach is idle, with no call in flight and no
-- more than one of a reply and an error shown; or waiting, with exactly one call in flight, of a
-- trimmed message that is not empty, and neither shown.
pub Reach-IsOrderly : (f : Form) → Reach empty_form f → IsOrderly f
Reach-IsOrderly f r =
    Reach-keeps (idle (record { not_loading = refl; no_call = refl; one_result = inl refl })) r

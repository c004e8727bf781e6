-- ===== src/Frontend/Echo/Liveness.antt =====
-- The form of web/src/App.tsx can always be used again.
use sample_grpc_service.Prelude.{◌≡◌, ◌≢◌, refl, String, false, [], str_eq}
use sample_grpc_service.Prelude.Outcome.{Outcome, ok, throw, stuck}
use sample_grpc_service.Greeter.EchoReply.{EchoReply}
use sample_grpc_service.Frontend.Echo.{
  Form, empty_form, set_message, call, settle, trim, typed, clicked, settled, Reach, here, next,
}
use sample_grpc_service.Frontend.Echo.InFlight.{IsOrderly, idle, waiting, Reach-IsOrderly}
use sample_grpc_service.Frontend.Echo.Screen.{screen, shown, failure}

-- An answered call, over a form with nothing in flight.
abbrev answered : String → Outcome EchoReply → Form → Form
answered m res f = settle res (record (call (set_message m f)) { in_flight = [] })

-- From a form with nothing in flight, by the events typed, clicked and settled.
answers :
    (f : Form) (m : String) (res : Outcome EchoReply)
    → f.loading ≡ false
    → f.in_flight ≡ []
    → str_eq (trim m) "" ≡ false
    → res ≢ stuck
    → Reach f (answered m res f)
unfolding set_message call
answers f m res free no_call full ne =
    next (next (next here (typed m free)) (clicked free full))
      (settled (record { message = trim m }) [] [] res (rw (full, no_call)) ne)

module _ (m : String) (full : str_eq (trim m) "" ≡ false) (f : Form) where
  answered-screen :
      (res : Outcome EchoReply)
      → res ≢ stuck
      → ((screen (answered m res f)).input_disabled ≡ false)
        × ((screen (answered m res f)).error ≡ failure res)
        × ((screen (answered m res f)).response ≡ shown res)
  unfolding screen settle call set_message
  answered-screen (ok reply) ne = rw full (refl, refl, refl)
  answered-screen (throw e) ne = rw full (refl, refl, refl)
  answered-screen stuck ne = absurd (ne refl)

chain : {f g h : Form} → Reach f g → Reach g h → Reach f h
chain r here = r
chain r (next s st) = next (chain r s) st

-- A form that waits gets an answer first.
free_again :
    (f : Form) → IsOrderly f → (g : Form) × Reach f g × (g.loading ≡ false) × (g.in_flight ≡ [])
unfolding settle
free_again f (idle h) = (f, here, h.not_loading, h.no_call)
free_again f (waiting h) = (
  settle (ok (record { message = "" })) (record f { in_flight = [] }),
  next here (settled h.sent [] [] (ok (record { message = "" })) h.one_call (λ e. cc e)),
  refl,
  refl,
)

-- From each state that the form reaches, whether a call is in flight or not, its events lead for
-- each message that is not blank and each answer to a call to a state with the input enabled that
-- shows that answer alone: the message of the reply, or the text of the error unless it is empty.
pub form_answers :
    (f : Form)
    → Reach empty_form f
    → (m : String) → str_eq (trim m) "" ≡ false
    → (res : Outcome EchoReply) → res ≢ stuck
    → (g : Form) × Reach f g
      × ((screen g).input_disabled ≡ false)
      × ((screen g).error ≡ failure res)
      × ((screen g).response ≡ shown res)
form_answers f r m full res ne =
    let (g, r', free, no_call) = free_again f (Reach-IsOrderly f r) in
    let (enabled, failed, replied) = answered-screen m full g res ne in
    (answered m res g, chain r' (answers g m res free no_call full ne), enabled, failed, replied)

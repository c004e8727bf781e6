-- ===== src/Tests/Browser.antt =====
-- The session and the echo form of web/src at concrete values.
use sample_grpc_service.Prelude.{
  ◌≡◌, ◌≢◌, ◌↔◌, refl, String, true, false, some, none, [], ◌∷◌, str_eq,
}
use sample_grpc_service.Prelude.Outcome.{Outcome, ok, throw, auth_error, error}
use sample_grpc_service.Auth.User.{User}
use sample_grpc_service.Greeter.EchoReply.{EchoReply}
use sample_grpc_service.Frontend.Api.{HttpResponse, build_request, receive, get_header}
use sample_grpc_service.Frontend.Api.Laws.{bearer, receive-auth_error, build_request-headers}
use sample_grpc_service.Frontend.Session
use sample_grpc_service.Frontend.Session.{
  Provider, fresh, mount, View, token_of, prompt, signed_in, view, shown_name,
}
use sample_grpc_service.Frontend.Session.Coherence.{IsCoherent, Reach-IsCoherent}
use sample_grpc_service.Frontend.Session.Restore.{
  reload, reload-signed_out, reload-signed_in, settle-throw,
}
use sample_grpc_service.Frontend.Session.Remount.{resurrect, resurrect_lem}
use sample_grpc_service.Frontend.Echo
use sample_grpc_service.Frontend.Echo.{Form, empty_form, trim}
use sample_grpc_service.Frontend.Echo.InFlight.{IsOrderly, Reach-IsOrderly}
use sample_grpc_service.Frontend.Echo.Screen.{OneOf, screen, screen-OneOf}
use sample_grpc_service.Frontend.Echo.Liveness.{form_answers}
use sample_grpc_service.Frontend.Session.Refinement.{
  Moves, opened, session_of, shown_as, token_at, session_refines,
}

abbrev ann : User
ann = record {
  id = "u-1";
  email = "ann@example.com";
  display_name = "Ann";
  username = "";
  picture_url = "";
  is_admin = true;
}

-- A page that checked its cached token: the user is signed in.
abbrev restored : Provider
unfolding Session.settle mount
restored =
    Session.settle "a.b.c" (ok ann) (record (mount (fresh (some "a.b.c"))) { restoring = [] })

is_restored : Session.Reach (mount (fresh (some "a.b.c"))) restored
unfolding Session.settle mount
is_restored = Session.next Session.here (Session.settled "a.b.c" [] [] (ok ann) refl (λ e. cc e))

restored-view : view restored ≡ signed_in "Ann" true
unfolding view restored
restored-view = refl

-- The same page after a sign-out.
abbrev left : Provider
unfolding Session.sign_out
left = Session.sign_out restored

is_left : Session.Reach (mount (fresh (some "a.b.c"))) left
unfolding Session.sign_out
is_left = Session.next is_restored (Session.signed_out_by "Ann" true restored-view)

left-view : view left ≡ prompt false
unfolding view left restored
left-view = refl

restored_jwt : restored.jwt ≡ some "a.b.c"
unfolding restored
restored_jwt = refl

Reach-IsCoherent_example : IsCoherent left
Reach-IsCoherent_example = Reach-IsCoherent (some "a.b.c") left is_left

reload-signed_out_example : ((reload left).restoring ≡ []) × (view (reload left) ≡ prompt false)
reload-signed_out_example = reload-signed_out (some "a.b.c") left false is_left left-view

reload-signed_in_example :
    ((reload restored).restoring ≡ "a.b.c" ∷ [])
    × ((Session.settle "a.b.c" (ok ann) (reload restored)).jwt ≡ restored.jwt)
    × ((Session.settle "a.b.c" (ok ann) (reload restored)).stored ≡ restored.stored)
    × (view (Session.settle "a.b.c" (ok ann) (reload restored))
        ≡ signed_in (shown_name ann) ann.is_admin)
reload-signed_in_example =
    reload-signed_in (some "a.b.c") restored "Ann" true "a.b.c" ann is_restored restored-view
      restored_jwt refl

settle-throw_example :
    ((Session.settle "a.b.c" (throw (error "503: down")) (mount (fresh (some "a.b.c")))).stored
      ≡ none)
    × (view (Session.settle "a.b.c" (throw (error "503: down")) (mount (fresh (some "a.b.c"))))
        ≡ prompt false)
settle-throw_example = settle-throw (some "a.b.c") "a.b.c" (error "503: down")

resurrect_lem_example :
    ((mount (mount (fresh (some "a.b.c")))).restoring ≡ "a.b.c" ∷ "a.b.c" ∷ [])
    × (view (resurrect "a.b.c" ann ann) ≡ signed_in "Ann" true)
    × ((resurrect "a.b.c" ann ann).jwt ≡ some "a.b.c")
    × ((resurrect "a.b.c" ann ann).stored ≡ none)
resurrect_lem_example = resurrect_lem "a.b.c" ann ann refl

session_refines_example :
    Moves (opened (some "a.b.c")) (session_of left)
    × (view left ≡ shown_as (session_of left) left.session_expired)
    × (token_of left.stored ≡ token_at (session_of left))
session_refines_example = session_refines (some "a.b.c") left is_left

-- A page that is checking its token.
abbrev waiting_page : Provider
waiting_page = mount (fresh (some "a.b.c"))

-- A form with a call in flight.
abbrev typed_form : Form
unfolding Echo.set_message
typed_form = Echo.set_message " hi " empty_form

abbrev sent_form : Form
unfolding Echo.call
sent_form = Echo.call typed_form

is_sent : Echo.Reach empty_form sent_form
unfolding Echo.call Echo.set_message
is_sent = Echo.next (Echo.next Echo.here (Echo.typed " hi " refl)) (Echo.entered refl)

Reach-IsOrderly_example : IsOrderly sent_form
Reach-IsOrderly_example = Reach-IsOrderly sent_form is_sent

screen-OneOf_example :
    OneOf (screen sent_form).status (screen sent_form).error (screen sent_form).response
screen-OneOf_example = screen-OneOf sent_form is_sent

again_full : str_eq (trim " again") "" ≡ false
unfolding trim Echo.is_space
again_full = refl

abbrev reply_again : Outcome EchoReply
reply_again = ok (record { message = "again" })

form_answers_example :
    (g : Form) × Echo.Reach sent_form g
    × ((screen g).input_disabled ≡ false)
    × ((screen g).error ≡ none)
    × ((screen g).response ≡ some "again")
form_answers_example = form_answers sent_form is_sent " again" again_full reply_again (λ e. cc e)

-- A body that never parses.
refuse : String → Outcome User
refuse s = throw (error s)

refuse_no_auth : (s m : String) → refuse s ≢ throw (auth_error m)
unfolding refuse
refuse_no_auth s m e = cc e

abbrev expired : HttpResponse
expired = record { status = 401; text = "expired" }

receive-auth_error_example :
    (receive refuse expired ≡ throw (auth_error "expired"))
    ↔ ((expired.status ≡ 401) × (expired.text ≡ "expired"))
receive-auth_error_example = receive-auth_error refuse expired "expired" refuse_no_auth

build_request-headers_example :
    (get_header "Content-Type"
        (build_request none "/auth/me"
          (record { method = "GET"; headers = none; body = none })
          (some "a.b.c")).headers
      ≡ some "application/json")
    × (get_header "Authorization"
          (build_request none "/auth/me"
            (record { method = "GET"; headers = none; body = none })
            (some "a.b.c")).headers
        ≡ bearer (some "a.b.c"))
build_request-headers_example = build_request-headers none (some "a.b.c") "/auth/me" "GET" none

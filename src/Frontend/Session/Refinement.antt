-- ===== src/Frontend/Session/Refinement.antt =====
-- The session of web/src/auth/AuthContext.tsx and web/src/auth/AuthBar.tsx as its users know it: a
-- machine of three kinds of states, which the provider implements.
use sample_grpc_service.Prelude.{
  ℕ, suc, ◌≡◌, ◌≢◌, ◌⊎◌, inl, inr, refl, sym, subst, ap, String, Bool, true, false, Option, none,
  some, List, ◌∷◌, ◌++◌, arith, str_eq, Bool-cases,
}
use sample_grpc_service.Prelude.Outcome.{Outcome, ok, throw, stuck}
use sample_grpc_service.Auth.User.{User}
use sample_grpc_service.Frontend.Api.{SessionResponseJson}
use sample_grpc_service.Frontend.Session.{
  Provider, fresh, token_of, mount, settle, sign_out, View, busy, signed_in, prompt, view,
  shown_name, start_login, finish_login, Step, settled, google_success, login_settled,
  signed_out_by, Reach, here, next,
}
use sample_grpc_service.Frontend.Session.Coherence.{
  IsRestoring, IsSignedOut, IsSignedIn, IsCoherent, at_start, outside, inside, Reach-IsCoherent,
  split_one, no_split, stored_token,
}

pub data Session : Type 0 where
  checking : String → Session
  visitor : Session
  member : String → User → Session

-- The session of a page that is opened over a stored token.
abbrev pub opened : Option String → Session
opened none = visitor
opened (some t) = checking t

pub data Move : Session → Session → Type 0 where
  accepted : (t : String) (u : User) → Move (checking t) (member t u)
  refused : (t : String) → Move (checking t) visitor
  enters : (t : String) (u : User) → Move visitor (member t u)
  replaced : (t t' : String) (u u' : User) → Move (member t u) (member t' u')
  leaves : (t : String) (u : User) → Move (member t u) visitor

pub data Moves (a : Session) : Session → Type 0 where
  start : Moves a a
  more : {b c : Session} → Moves a b → Move b c → Moves a c

-- What the page shows of a session, and the token that a reload would check.
abbrev pub shown_as : Session → Bool → View
shown_as (checking t) expired = busy
shown_as visitor expired = prompt expired
shown_as (member t u) expired = signed_in (shown_name u) u.is_admin

abbrev pub token_at : Session → Option String
token_at (checking t) = token_of (some t)
token_at visitor = none
token_at (member t u) = token_of (some t)

abbrev session_at : Bool → Option String → Option User → Option String → Session
session_at true none user jwt = visitor
session_at true (some t) user jwt = checking t
session_at false stored none jwt = visitor
session_at false stored (some u) none = visitor
session_at false stored (some u) (some t) = member t u

abbrev pub session_of : Provider → Session
session_of s = session_at s.loading (token_of s.stored) s.user s.jwt

module _ {s : Provider} where
  restoring_lem : (h : IsRestoring s) → session_of s ≡ checking h.token
  restoring_lem h = rw (h.loading, h.stored)

  signed_out_lem : (h : IsSignedOut s) → session_of s ≡ visitor
  signed_out_lem h = rw (h.not_loading, h.no_user)

  signed_in_lem : (h : IsSignedIn s) → session_of s ≡ member h.token h.person
  signed_in_lem h = rw (h.not_loading, h.has_user, h.has_jwt)

start_login-session :
    (credential : Option String) (s : Provider)
    → session_of (start_login credential s) ≡ session_of s
unfolding start_login
start_login-session none s = refl
start_login-session (some t) s = elim (Bool-cases (str_eq t "")) [
  | inl empty ↦ rw (empty, start_login)
  | inr full ↦ rw (full, start_login)
]

-- A step is a move, or the session stays.
abbrev Follows : Session → Session → Type 0
Follows a b = (b ≡ a) ⊎ Move a b

settle-Follows :
    {s : Provider} (cached : String) (before after : List String) (res : Outcome User)
    → IsCoherent s
    → s.restoring ≡ before ++ (cached ∷ after)
    → res ≢ stuck
    → Follows
        (session_of s)
        (session_of (settle cached res (record s { restoring = before ++ after })))
unfolding settle
settle-Follows {s} cached before after (ok u) (at_start h) e ne =
    let (same, rest) = split_one before after cached h.token (cc (e, h.one_call)) in
    rw (restoring_lem h, same) (inr (accepted h.token u))
settle-Follows cached before after (throw x) (at_start h) e ne =
    rw (restoring_lem h, h.no_user) (inr (refused h.token))
settle-Follows cached before after stuck (at_start h) e ne = absurd (ne refl)
settle-Follows cached before after res (outside h) e ne =
    absurd (no_split before after cached (cc (e, h.no_call)))
settle-Follows cached before after res (inside h) e ne =
    absurd (no_split before after cached (cc (e, h.no_call)))

finish_login-Follows :
    {s : Provider} (n : ℕ) (res : Outcome SessionResponseJson)
    → IsCoherent s
    → s.logins ≡ suc n
    → Follows (session_of s) (session_of (finish_login res (record s { logins = n })))
unfolding finish_login
finish_login-Follows n res (at_start h) e = absurd (omega (arith, h.no_login))
finish_login-Follows n (ok session) (outside h) e =
    rw (signed_out_lem h, h.not_loading) (inr (enters session.jwt session.user))
finish_login-Follows n (ok session) (inside h) e =
    rw (signed_in_lem h, h.not_loading) (inr (replaced h.token session.jwt h.person session.user))
finish_login-Follows n (throw x) c e = inl refl
finish_login-Follows n stuck c e = inl refl

sign_out-Follows :
    {s : Provider} (name : String) (admin : Bool)
    → IsCoherent s
    → view s ≡ signed_in name admin
    → Follows (session_of s) (session_of (sign_out s))
unfolding sign_out view
sign_out-Follows name admin (at_start h) e = absurd (ground (arith, h.loading))
sign_out-Follows name admin (outside h) e = absurd (ground (arith, h.not_loading, h.no_user))
sign_out-Follows name admin (inside h) e =
    rw (signed_in_lem h, h.not_loading) (inr (leaves h.token h.person))

Step-Follows : {s t : Provider} → Step s t → IsCoherent s → Follows (session_of s) (session_of t)
Step-Follows (settled cached before after res e ne) c =
    settle-Follows cached before after res c e ne
Step-Follows {s} (google_success expired credential e) c = inl (start_login-session credential s)
Step-Follows (login_settled n res e) c = finish_login-Follows n res c e
Step-Follows (signed_out_by name admin e) c = sign_out-Follows name admin c e

then : {a b c : Session} → Moves a b → Follows b c → Moves a c
then {a} ms (inl same) = subst (Moves a) (sym same) ms
then ms (inr m) = more ms m

-- The view and the token of a coherent state are those of its session.
view-session : {s : Provider} → IsCoherent s → view s ≡ shown_as (session_of s) s.session_expired
unfolding view
view-session (at_start h) = rw (restoring_lem h, h.loading)
view-session (outside h) = rw (signed_out_lem h, h.not_loading, h.no_user)
view-session (inside h) = rw (signed_in_lem h, h.not_loading, h.has_user)

token-session : {s : Provider} → IsCoherent s → token_of s.stored ≡ token_at (session_of s)
token-session {s} (at_start h) =
    rw (restoring_lem h) (ap token_of (stored_token s.stored h.token h.stored))
token-session (outside h) = rw (signed_out_lem h, h.not_stored)
token-session (inside h) = rw (signed_in_lem h, h.stored)

mount-session :
    (stored : Option String) → session_of (mount (fresh stored)) ≡ opened (token_of stored)
unfolding mount
mount-session none = refl
mount-session (some t) = elim (Bool-cases (str_eq t "")) [
  | inl empty ↦ rw empty
  | inr full ↦ rw (full, full)
]

reached :
    (stored : Option String) (t : Provider)
    → Reach (mount (fresh stored)) t
    → Moves (opened (token_of stored)) (session_of t)
reached stored t here = subst (Moves (opened (token_of stored))) (sym (mount-session stored)) start
reached stored u (next {t} r st) =
    then (reached stored t r) (Step-Follows st (Reach-IsCoherent stored t r))

-- From the mount of the provider on any content of localStorage, the states that the events of a
-- page reach follow an abstract session that checks a token, is a visitor or is a member: it
-- starts by checking the stored token, or as a visitor without one; a check ends as the member
-- with that token or as a visitor; a visitor becomes a member, and a member changes to another or
-- leaves. What AuthBar shows and the token that a reload would check are those of the abstract
-- state.
pub session_refines :
    (stored : Option String) (t : Provider)
    → Reach (mount (fresh stored)) t
    → Moves (opened (token_of stored)) (session_of t)
      × (view t ≡ shown_as (session_of t) t.session_expired)
      × (token_of t.stored ≡ token_at (session_of t))
session_refines stored t r =
    let c = Reach-IsCoherent stored t r in (reached stored t r, view-session c, token-session c)

-- ===== src/Frontend/Session/Coherence.antt =====
-- The token in memory and the token in localStorage, over the events of a page:
-- web/src/auth/AuthContext.tsx and web/src/auth/AuthBar.tsx.
use sample_grpc_service.Prelude.{
  ℕ, suc, ◌≡◌, ◌≢◌, inl, inr, refl, String, Bool, true, false, Option, none, some, List, [], ◌∷◌,
  ◌++◌, arith, str_eq, Bool-cases,
}
use sample_grpc_service.Prelude.Outcome.{Outcome, ok, throw, stuck}
use sample_grpc_service.Auth.User.{User}
use sample_grpc_service.Frontend.Api.{SessionResponseJson}
use sample_grpc_service.Frontend.Session.{
  Provider, fresh, token_of, mount, settle, sign_out, signed_in, prompt, view, start_login,
  finish_login, Step, settled, google_success, login_settled, signed_out_by, Reach, here, next,
}

-- While a cached token is being checked nobody is signed in, and the token is still stored.
pub record IsRestoring (s : Provider) : Type 0 where
  pub token : String
  pub loading : s.loading ≡ true
  pub no_user : s.user ≡ none
  pub no_jwt : s.jwt ≡ none
  pub not_expired : s.session_expired ≡ false
  pub stored : token_of s.stored ≡ some token
  pub one_call : s.restoring ≡ token ∷ []
  pub no_login : s.logins ≡ 0

-- Signed out: no user, no token in memory and none that a reload would use.
pub record IsSignedOut (s : Provider) : Type 0 where
  pub not_loading : s.loading ≡ false
  pub no_user : s.user ≡ none
  pub no_jwt : s.jwt ≡ none
  pub not_stored : token_of s.stored ≡ none
  pub no_call : s.restoring ≡ []

-- Signed in: a user, and the same token in memory and in localStorage.
pub record IsSignedIn (s : Provider) : Type 0 where
  pub person : User
  pub token : String
  pub not_loading : s.loading ≡ false
  pub has_user : s.user ≡ some person
  pub has_jwt : s.jwt ≡ some token
  pub stored : s.stored ≡ some token
  pub not_expired : s.session_expired ≡ false
  pub no_call : s.restoring ≡ []

pub data IsCoherent (s : Provider) : Type 0 where
  at_start : IsRestoring s → IsCoherent s
  outside : IsSignedOut s → IsCoherent s
  inside : IsSignedIn s → IsCoherent s

pub mount-IsCoherent : (stored : Option String) → IsCoherent (mount (fresh stored))
unfolding mount
mount-IsCoherent none = outside (record {
  not_loading = refl;
  no_user = refl;
  no_jwt = refl;
  not_stored = refl;
  no_call = refl;
})
mount-IsCoherent (some t) = elim (Bool-cases (str_eq t "")) [
  | inl empty ↦ rw empty (
      outside (record {
        not_loading = refl;
        no_user = refl;
        no_jwt = refl;
        not_stored = rw empty;
        no_call = refl;
      }))
  | inr full ↦ rw full (
      at_start (record {
        token = t;
        loading = refl;
        no_user = refl;
        no_jwt = refl;
        not_expired = refl;
        stored = rw full;
        one_call = refl;
        no_login = refl;
      }))
]

pub no_split : (before after : List String) (x : String) → [] ≡ before ++ (x ∷ after) → ⊥
no_split [] after x e = cc e
no_split (y ∷ before) after x e = cc e

pub split_one :
    (before after : List String) (x t : String)
    → (t ∷ []) ≡ before ++ (x ∷ after)
    → (x ≡ t) × (before ++ after ≡ [])
split_one [] after x t e = (cc e, cc e)
split_one (y ∷ before) after x t e = absurd (no_split before after x (cc e))

pub stored_token : (o : Option String) (t : String) → token_of o ≡ some t → o ≡ some t
stored_token none t h = cc h
stored_token (some u) t h = ground arith

module _ {s : Provider} (n : ℕ) where
  kept_outside : IsSignedOut s → IsSignedOut (record s { logins = n })
  kept_outside h = record {
    not_loading = h.not_loading;
    no_user = h.no_user;
    no_jwt = h.no_jwt;
    not_stored = h.not_stored;
    no_call = h.no_call;
  }

  kept_inside : IsSignedIn s → IsSignedIn (record s { logins = n })
  kept_inside h = record {
    person = h.person;
    token = h.token;
    not_loading = h.not_loading;
    has_user = h.has_user;
    has_jwt = h.has_jwt;
    stored = h.stored;
    not_expired = h.not_expired;
    no_call = h.no_call;
  }

settle-IsCoherent :
    {s : Provider} (cached : String) (before after : List String) (res : Outcome User)
    → IsCoherent s
    → s.restoring ≡ before ++ (cached ∷ after)
    → res ≢ stuck
    → IsCoherent (settle cached res (record s { restoring = before ++ after }))
unfolding settle
settle-IsCoherent {s} cached before after (ok u) (at_start h) e ne =
    let (same, rest) = split_one before after cached h.token (cc (e, h.one_call)) in
    inside (record {
      person = u;
      token = cached;
      not_loading = refl;
      has_user = refl;
      has_jwt = refl;
      stored = rw same (stored_token s.stored h.token h.stored);
      not_expired = h.not_expired;
      no_call = rest;
    })
settle-IsCoherent cached before after (throw x) (at_start h) e ne =
    let (same, rest) = split_one before after cached h.token (cc (e, h.one_call)) in
    outside (record {
      not_loading = refl;
      no_user = h.no_user;
      no_jwt = h.no_jwt;
      not_stored = refl;
      no_call = rest;
    })
settle-IsCoherent cached before after stuck (at_start h) e ne = absurd (ne refl)
settle-IsCoherent cached before after res (outside h) e ne =
    absurd (no_split before after cached (cc (e, h.no_call)))
settle-IsCoherent cached before after res (inside h) e ne =
    absurd (no_split before after cached (cc (e, h.no_call)))

counted :
    {s : Provider} (expired : Bool)
    → IsCoherent s
    → view s ≡ prompt expired
    → IsCoherent (record s { logins = suc s.logins })
unfolding view
counted expired (at_start h) v = absurd (ground (arith, h.loading))
counted {s} expired (outside h) v = outside (kept_outside (suc s.logins) h)
counted expired (inside h) v = absurd (ground (arith, h.not_loading, h.has_user))

start_login-IsCoherent :
    {s : Provider} (expired : Bool) (credential : Option String)
    → IsCoherent s
    → view s ≡ prompt expired
    → IsCoherent (start_login credential s)
unfolding start_login
start_login-IsCoherent expired none c e = c
start_login-IsCoherent {s} expired (some t) c e = elim (Bool-cases (str_eq t "")) [
  | inl empty ↦ rw (empty, start_login) c
  | inr full ↦ rw (full, start_login) (counted expired c e)
]

finish_login-IsCoherent :
    {s : Provider} (n : ℕ) (res : Outcome SessionResponseJson)
    → IsCoherent s
    → s.logins ≡ suc n
    → IsCoherent (finish_login res (record s { logins = n }))
unfolding finish_login
finish_login-IsCoherent n res (at_start h) e = absurd (omega (arith, h.no_login))
finish_login-IsCoherent n (ok session) (outside h) e = inside (record {
  person = session.user;
  token = session.jwt;
  not_loading = h.not_loading;
  has_user = refl;
  has_jwt = refl;
  stored = refl;
  not_expired = refl;
  no_call = h.no_call;
})
finish_login-IsCoherent n (ok session) (inside h) e = inside (record {
  person = session.user;
  token = session.jwt;
  not_loading = h.not_loading;
  has_user = refl;
  has_jwt = refl;
  stored = refl;
  not_expired = refl;
  no_call = h.no_call;
})
finish_login-IsCoherent n (throw x) (outside h) e = outside (kept_outside n h)
finish_login-IsCoherent n (throw x) (inside h) e = inside (kept_inside n h)
finish_login-IsCoherent n stuck (outside h) e = outside (kept_outside n h)
finish_login-IsCoherent n stuck (inside h) e = inside (kept_inside n h)

sign_out-IsCoherent :
    {s : Provider} (name : String) (admin : Bool)
    → IsCoherent s
    → view s ≡ signed_in name admin
    → IsCoherent (sign_out s)
unfolding sign_out view
sign_out-IsCoherent name admin (at_start h) e = absurd (ground (arith, h.loading))
sign_out-IsCoherent name admin (outside h) e = absurd (ground (arith, h.not_loading, h.no_user))
sign_out-IsCoherent name admin (inside h) e = outside (record {
  not_loading = h.not_loading;
  no_user = refl;
  no_jwt = refl;
  not_stored = refl;
  no_call = h.no_call;
})

Step-IsCoherent : {s t : Provider} → Step s t → IsCoherent s → IsCoherent t
Step-IsCoherent (settled cached before after res e ne) c =
    settle-IsCoherent cached before after res c e ne
Step-IsCoherent (google_success expired credential e) c =
    start_login-IsCoherent expired credential c e
Step-IsCoherent (login_settled n res e) c = finish_login-IsCoherent n res c e
Step-IsCoherent (signed_out_by name admin e) c = sign_out-IsCoherent name admin c e

Reach-keeps : {s t : Provider} → IsCoherent s → Reach s t → IsCoherent t
Reach-keeps c here = c
Reach-keeps c (next r st) = Step-IsCoherent st (Reach-keeps c r)

-- From the mount of the provider on any content of localStorage, each state that the events of a
-- page reach is of one of three kinds: checking the cached token, with no user; signed out, with
-- no user, no token in memory and none in localStorage that a reload would use; or signed in, with
-- a user and the same token in memory and in localStorage, and no notice of expiry. A check is in
-- flight in the first kind alone.
pub Reach-IsCoherent :
    (stored : Option String) (t : Provider) → Reach (mount (fresh stored)) t → IsCoherent t
Reach-IsCoherent stored t r = Reach-keeps (mount-IsCoherent stored) r

-- ===== src/Tests/SampleOrm.antt =====
-- A users table as a list of rows, the newest version of a row first, and the proof that it keeps
-- the laws of the database.
use sample_grpc_service.Prelude.{
  ◌≡◌, refl, sym, ap, ◌∙◌, inl, inr, String, Bool, false, ◌||◌, Option, none, some, List, [], ◌∷◌,
  str_eq, eq_iff, eq_refl, if◌then◌else◌, Bool-cases,
}
use sample_grpc_service.Backend.Users.{DbUser, Profile, Orm, OrmLaws, Found, good, bad}
use Prim.Native.String

pub by_sub : String → List DbUser → Found DbUser
by_sub k [] = bad "record not found"
by_sub k (u ∷ us) = if str_eq u.google_sub k then good u else by_sub k us

pub by_key : String → List DbUser → Found DbUser
by_key k [] = bad "record not found"
by_key k (u ∷ us) = if str_eq u.id k then good u else by_key k us

named : String → Option String → Bool
named s none = false
named s (some t) = str_eq t s

taken : String → List DbUser → Bool
unfolding named
taken s [] = false
taken s (u ∷ us) = named s u.username || taken s us

is_taken : Option String → List DbUser → Bool
unfolding taken
is_taken none us = false
is_taken (some s) us = taken s us

abbrev new_row : Profile → DbUser
new_row p = record {
  id = String.◌++◌ "id-" p.google_sub;
  google_sub = p.google_sub;
  email = p.email;
  display_name = p.display_name;
  picture_url = p.picture_url;
  username = none;
  is_admin = false;
  created_at = 0;
  updated_at = 0;
}

abbrev refreshed : Profile → DbUser → DbUser
refreshed p u = record u {
  email = p.email;
  display_name = p.display_name;
  picture_url = p.picture_url;
}

refresh : Profile → Found DbUser → List DbUser → Found DbUser × List DbUser
refresh p (good u) us = (good (refreshed p u), refreshed p u ∷ us)
refresh p (bad e) us = (good (new_row p), new_row p ∷ us)

rename : Option String → Found DbUser → List DbUser → Option String × List DbUser
unfolding is_taken
rename name (bad e) us = (none, us)
rename name (good u) us =
    if is_taken name us
    then (some "unique constraint (23505)", us)
    else (none, record u { username = name; updated_at = 1 } ∷ us)

unfoldable pub sample_orm : Orm
unfolding by_sub by_key refresh rename
sample_orm = record {
  State = List DbUser;
  first_or_create = λ p us. refresh p (by_sub p.google_sub us) us;
  set_username = λ id name us. rename name (by_key id us) us;
  first_by_id = by_key;
  in_order = λ us. good us;
  create_echo = λ message us. (some "read only", us);
}

by_key-id : (k : String) (us : List DbUser) (u : DbUser) → by_key k us ≡ good u → u.id ≡ k
unfolding by_key
by_key-id k [] u h = absurd (cc h)
by_key-id k (v ∷ us) u h = elim (Bool-cases (str_eq v.id k)) [
  | inl same ↦
      let e : v ≡ u = cc (rw same at h) in
      (ap (λ (x : DbUser). x.id) (sym e) ∙ (eq_iff v.id k).0 same)
  | inr other ↦ by_key-id k us u (rw other at h)
]

by_sub-sub : (k : String) (us : List DbUser) (u : DbUser) → by_sub k us ≡ good u → u.google_sub ≡ k
unfolding by_sub
by_sub-sub k [] u h = absurd (cc h)
by_sub-sub k (v ∷ us) u h = elim (Bool-cases (str_eq v.google_sub k)) [
  | inl same ↦
      let e : v ≡ u = cc (rw same at h) in
      ap (λ (x : DbUser). x.google_sub) (sym e) ∙ (eq_iff v.google_sub k).0 same
  | inr other ↦ by_sub-sub k us u (rw other at h)
]

by_key-first : (u : DbUser) (us : List DbUser) → by_key u.id (u ∷ us) ≡ good u
unfolding by_key
by_key-first u us = rw (eq_refl u.id)

refresh-keyed :
    (p : Profile) (o : Found DbUser) (us us' : List DbUser) (u : DbUser)
    → ((v : DbUser) → o ≡ good v → v.google_sub ≡ p.google_sub)
    → refresh p o us ≡ (good u, us')
    → u.google_sub ≡ p.google_sub
unfolding refresh
refresh-keyed p (good v) us us' u k h =
    let e : refreshed p v ≡ u = cc h in ap (λ (x : DbUser). x.google_sub) (sym e) ∙ k v refl
refresh-keyed p (bad m) us us' u k h =
    let e : new_row p ≡ u = cc h in ap (λ (x : DbUser). x.google_sub) (sym e)

refresh-stored :
    (p : Profile) (o : Found DbUser) (us us' : List DbUser) (u : DbUser)
    → refresh p o us ≡ (good u, us')
    → us' ≡ u ∷ us
unfolding refresh
refresh-stored p (good v) us us' u h = cc h
refresh-stored p (bad m) us us' u h = cc h

rename-done :
    (id : String) (name : Option String) (us us' : List DbUser) (u : DbUser)
    → by_key id us ≡ good u
    → rename name (good u) us ≡ (none, us')
    → by_key id us' ≡ good (record u { username = name; updated_at = 1 })
unfolding rename by_key
rename-done id name us us' u found h = elim (Bool-cases (is_taken name us)) [
  | inl used ↦ absurd (cc (rw used at h))
  | inr free ↦
      let e : record u { username = name; updated_at = 1 } ∷ us ≡ us' = cc (rw free at h) in
      rw (sym e) (rw (sym (by_key-id id us u found)) (rw (eq_refl u.id)))
]

rename-failed :
    (name : Option String) (o : Found DbUser) (us us' : List DbUser) (e : String)
    → rename name o us ≡ (some e, us')
    → us' ≡ us
unfolding rename
rename-failed name (bad m) us us' e h = absurd (cc h)
rename-failed name (good u) us us' e h = elim (Bool-cases (is_taken name us)) [
  | inl used ↦ cc (rw used at h)
  | inr free ↦ absurd (cc (rw free at h))
]

pub sample_orm_laws : OrmLaws sample_orm
unfolding sample_orm
sample_orm_laws = record {
  keyed = λ p us us' u full h.
      refresh-keyed p (by_sub p.google_sub us) us us' u (λ v e. by_sub-sub p.google_sub us v e) h;
  stored =
      λ p us us' u h. rw (refresh-stored p (by_sub p.google_sub us) us us' u h) (by_key-first u us);
  by_id = λ p us us₀ us' u v h found. by_key-id u.id us' v found;
  set_done = λ id name us us' u h found. (1, rename-done id name us us' u found (rw found at h));
  set_failed = λ id e name us us' h. rename-failed name (by_key id us) us us' e h;
}

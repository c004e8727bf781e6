-- ===== src/Backend/Users/Upsert.antt =====
-- What `UpdateUsername` and `UpsertUser` of internal/db/db.go return and leave in the database.
use sample_grpc_service.Prelude.{
  ℕ, zero, suc, ◌+◌, ◌<◌, ◌≡◌, refl, sym, ap, ◌∙◌, subst, ◌⊎◌, inl, inr, String, false, Option,
  none, some, arith, str_eq, if◌then◌else◌,
}
use sample_grpc_service.Backend.Users.{
  DbUser, Profile, Orm, OrmLaws, Found, good, bad, Result, done, fail, wrapped, username_taken,
  failed, is_unique_violation, pointer_to, get_user_by_id, after_update, update_username, try_names,
  name_if_new, after_create, upsert_user,
}
use Prim.Native.String

pub Option-pair {ℓ κ} :
    {A : Type ℓ} {B : Type κ} (p : Option A × B)
    → ((b : B) × (p ≡ (none, b))) ⊎ ((a : A) × (b : B) × (p ≡ (some a, b)))
Option-pair (none, b) = inl (b, refl)
Option-pair (some a, b) = inr (a, b, refl)

abbrev pub profile_of : String → String → String → String → Profile
profile_of google_sub email display_name picture_url = record {
  google_sub = google_sub;
  email = email;
  display_name = display_name;
  picture_url = pointer_to picture_url;
}

module _ (db : Orm) (laws : OrmLaws db) where
  pub get-found :
      (id : String) (st : db.State) (u : DbUser)
      → db.first_by_id id st ≡ good u
      → get_user_by_id db id st ≡ done u
  unfolding get_user_by_id wrapped
  get-found id st u h = rw h

  pub update_username_run :
      (id name : String) (st : db.State) (u : DbUser)
      → db.first_by_id id st ≡ good u
      → ((t : ℕ) × (st' : db.State) × (db.set_username id (pointer_to name) st ≡ (none, st'))
          × (update_username db id name st
              ≡ (done (record u { username = pointer_to name; updated_at = t }), st'))
          × (db.first_by_id id st'
              ≡ good (record u { username = pointer_to name; updated_at = t })))
        ⊎ ((e : String) × (db.set_username id (pointer_to name) st ≡ (some e, st))
            × (update_username db id name st ≡ (
              fail (
                  if is_unique_violation e
                  then username_taken
                  else failed (String.◌++◌ "update username: " e)),
              st,
            )))
  unfolding update_username after_update
  update_username_run id name st u h =
      elim (Option-pair (db.set_username id (pointer_to name) st)) [
        | inl (st', e) ↦
            let (t, now) = laws.set_done id (pointer_to name) st st' u e h in
            inl (t, st', e, rw e (rw (get-found id st' _ now)), now)
        | inr (msg, st', e) ↦
            let same = laws.set_failed id msg (pointer_to name) st st' e in
            inr (msg, e ∙ ap (λ (x : db.State). (some msg, x)) same, rw e (rw same))
      ]

  -- How a user leaves the sign-in: as the row was, or with a name out of `n` candidates from `i` on.
  pub data IsNamed (candidate : ℕ → String) (i n : ℕ) (u : DbUser) : DbUser → Type 0 where
    kept : IsNamed candidate i n u u
    named :
        (k t : ℕ)
        → k < n
        → IsNamed candidate i n u
            (record u { username = pointer_to (candidate (i + k)); updated_at = t })

  IsNamed-later :
      (candidate : ℕ → String) (i n : ℕ) (u v : DbUser)
      → IsNamed candidate (suc i) n u v
      → IsNamed candidate i (suc n) u v
  IsNamed-later candidate i n u v kept = kept
  IsNamed-later candidate i n u v (named k t lt) =
      subst
        (λ (j : ℕ).
          IsNamed candidate i (suc n) u
            (record u { username = pointer_to (candidate j); updated_at = t }))
        (omega arith) (named (suc k) t (omega arith))

  try_names-IsNamed :
      (candidate : ℕ → String) (n i : ℕ) (u : DbUser) (st : db.State)
      → db.first_by_id u.id st ≡ good u
      → (v : DbUser) × (st' : db.State) × (try_names db candidate n i u.id st ≡ (done v, st'))
        × (db.first_by_id u.id st' ≡ good v)
        × IsNamed candidate i n u v
  unfolding try_names
  try_names-IsNamed candidate zero i u st h = (u, st, rw (get-found u.id st u h), h, kept)
  try_names-IsNamed candidate (suc n) i u st h =
      elim (update_username_run u.id (candidate i) st u h) [
        | inl (t, st', set, e, now) ↦ (
          record u { username = pointer_to (candidate i); updated_at = t },
          st',
          rw (try_names, e)
              (ap
                (λ (q : Result DbUser × db.State).
                  (done (record u { username = pointer_to (candidate i); updated_at = t }), q.1))
                e),
          now,
          subst
              (λ (j : ℕ).
                IsNamed candidate i (suc n) u
                  (record u { username = pointer_to (candidate j); updated_at = t }))
              (omega arith) (named 0 t (omega arith)),
        )
        | inr (msg, set, e) ↦
            let (v, st', f, now, name) = try_names-IsNamed candidate n (suc i) u st h in
            (
              v,
              st',
              rw (try_names, e)
                  (ap (λ (q : Result DbUser × db.State). try_names db candidate n (suc i) u.id q.1)
                      e
                    ∙ f),
              now,
              IsNamed-later candidate i n u v name,
            )
      ]

  -- The row as it is kept, or one of ten names where it had none.
  pub data IsSignedIn (candidate : ℕ → String) (u : DbUser) : DbUser → Type 0 where
    has_name : (name : String) → u.username ≡ some name → IsSignedIn candidate u u
    had_none :
        {v : DbUser} → u.username ≡ none → IsNamed candidate 0 10 u v → IsSignedIn candidate u v

  name_if_new-IsSignedIn :
      (candidate : ℕ → String) (u : DbUser) (o : Option String) (st : db.State)
      → u.username ≡ o
      → db.first_by_id u.id st ≡ good u
      → (v : DbUser) × (st' : db.State) × (name_if_new db candidate u o st ≡ (done v, st'))
        × (db.first_by_id u.id st' ≡ good v)
        × IsSignedIn candidate u v
  unfolding name_if_new
  name_if_new-IsSignedIn candidate u none st e h =
      let (v, st', f, now, name) = try_names-IsNamed candidate 10 0 u st h in
      (v, st', f, now, had_none e name)
  name_if_new-IsSignedIn candidate u (some name) st e h = (u, st, refl, h, has_name name e)

  -- Once the row is found or created, `UpsertUser` returns a user, however many of the ten names
  -- are refused: the user stored under the id of the row. A row that had a name is returned as it
  -- is; one that had none stays so or gets one of the ten candidates, and differs in nothing else
  -- but the time of its update.
  pub upsert_user_returns :
      (google_sub email display_name picture_url : String) (candidate : ℕ → String)
      (st st₀ : db.State) (u : DbUser)
      → db.first_or_create (profile_of google_sub email display_name picture_url) st ≡ (good u, st₀)
      → (v : DbUser) × (st' : db.State) × (upsert_user db google_sub email display_name picture_url
            candidate st
          ≡ (done v, st'))
        × (db.first_by_id u.id st' ≡ good v)
        × IsSignedIn candidate u v
  unfolding upsert_user after_create
  upsert_user_returns google_sub email display_name picture_url candidate st st₀ u h = rw h (
      name_if_new-IsSignedIn candidate u u.username st₀ refl
        (laws.stored (profile_of google_sub email display_name picture_url) st st₀ u h))

  IsNamed-sub :
      (candidate : ℕ → String) (i n : ℕ) (u v : DbUser)
      → IsNamed candidate i n u v
      → v.google_sub ≡ u.google_sub
  IsNamed-sub candidate i n u v kept = refl
  IsNamed-sub candidate i n u v (named k t lt) = refl

  IsSignedIn-sub :
      (candidate : ℕ → String) (u v : DbUser)
      → IsSignedIn candidate u v
      → v.google_sub ≡ u.google_sub
  IsSignedIn-sub candidate u v (has_name name e) = refl
  IsSignedIn-sub candidate u v (had_none e name) = IsNamed-sub candidate 0 10 u v name

  Found-cases :
      (p : Found DbUser × db.State)
      → ((u : DbUser) × (st₀ : db.State) × (p ≡ (good u, st₀)))
        ⊎ ((e : String) × (st₀ : db.State) × (p ≡ (bad e, st₀)))
  Found-cases (good u, st₀) = inl (u, st₀, refl)
  Found-cases (bad e, st₀) = inr (e, st₀, refl)

  -- A user that `UpsertUser` returns for a subject that is not empty has that subject, and is the
  -- one stored under its id.
  pub upsert_user_sound :
      (google_sub email display_name picture_url : String) (candidate : ℕ → String)
      (st st' : db.State) (v : DbUser)
      → str_eq google_sub "" ≡ false
      → upsert_user db google_sub email display_name picture_url candidate st ≡ (done v, st')
      → (v.google_sub ≡ google_sub) × (db.first_by_id v.id st' ≡ good v)
  unfolding upsert_user after_create
  upsert_user_sound google_sub email display_name picture_url candidate st st' v full h =
      let profile = profile_of google_sub email display_name picture_url in
      elim (Found-cases (db.first_or_create profile st)) [
        | inl (u, st₀, e) ↦
            let (v', st₁, f, now, how) =
              upsert_user_returns google_sub email display_name picture_url candidate st st₀ u e in
            let same : v' ≡ v = cc (f, h) in
            let states : st₁ ≡ st' = cc (f, h) in
            let sub : v.google_sub ≡ google_sub =
              ap (λ (x : DbUser). x.google_sub) (sym same)
              ∙ IsSignedIn-sub candidate u v' how
              ∙ laws.keyed profile st st₀ u full e in
            let there = laws.by_id profile st st₀ st₁ u v' e now in
            (sub, cc (now, there, same, states))
        | inr (msg, st₀, e) ↦ absurd (cc (rw e at h))
      ]

-- ===== src/Users/EmailChange.antt =====
-- What a change of an account's email leaves (`updateEmail` of UsersService).
use open_profile_be.Auth.UserStatusCache.{has_id}
use open_profile_be.Entities.{AuthProvider, User}
use open_profile_be.Exec.{Result, err, http, ok}
use open_profile_be.Prelude.{
  Bool, List, String, ap, arith, false, first, refl, [], ◌∷◌, map_where, none, some, sym, ◌∙◌, ◌≡◌,
  ◌⊎◌,
}
use open_profile_be.Services.{Services}
use open_profile_be.Users.{email_already_exists, has_email, provider_eq}
use open_profile_be.World.{World}
use open_profile_be.Users

first-map_where :
    (p : User → Bool) (f : User → User) (us : List User) (u : User)
    → ((v : User) → p (f v) ≡ p v)
    → first p us ≡ some u
    → first p (map_where p f us) ≡ some (f u)
first-map_where p f [] u kept e = absurd (ground (arith, e))
first-map_where p f (v ∷ us) u kept e = ground (arith, kept v, e, first-map_where p f us u kept)

module _ (x : Services) (id address : String) (u : User) (w : World x)
    (own : x.users.find_one (has_id id) w.users ≡ some u) where
  abbrev readdressed : User → User
  readdressed v = record v { email = address }

  -- The row that an update finds, where the unique indexes let it through.
  updated_row :
      (t : x.users.Table)
      → x.users.update_unique (has_id id) readdressed w.users ≡ some t
      → x.users.find_one (has_id id) t ≡ some (readdressed u)
  updated_row t e =
      let rows : (x.users.rows t ≡ map_where (has_id id) readdressed (x.users.rows w.users)) =
        (ground (arith, e, x.users.rows-update_unique (has_id id) readdressed w.users)) in
      x.users.find_one_lem (has_id id) t
      ∙ ap (first (has_id id)) rows
      ∙ first-map_where (has_id id) readdressed (x.users.rows w.users) u (λ v. refl)
          (sym (x.users.find_one_lem (has_id id) w.users) ∙ own)

  -- Another account has the address, or the unique indexes do not let the change through.
  abbrev IsTaken : Type 0
  IsTaken =
      ((v : User) × (x.users.find_one (has_email address) w.users ≡ some v))
      ⊎ (x.users.update_unique (has_id id) readdressed w.users ≡ none)

  -- Why a change is refused, and how.
  abbrev IsRefused : Result String → Type 0
  IsRefused r =
      ((provider_eq u.auth_provider AuthProvider.email ≡ false)
        × (r ≡ err (http 403 "EMAIL_MANAGED_BY_PROVIDER")))
      ⊎ (IsTaken × (r ≡ err email_already_exists))

  abbrev IsMoved : Result String × World x → Type 0
  IsMoved m =
      (m.0 ≡ ok address)
      × (x.users.find_one (has_id id) m.1.users ≡ some (readdressed u))
      × ((u.email ≡ address) ⊎ (x.users.find_one (has_email address) w.users ≡ none))

  abbrev pub Changed : Result String × World x → Type 0
  Changed m = IsMoved m ⊎ (IsRefused m.0 × (m.1.users ≡ w.users))

-- ===== src/Profiles/Pages/Private.antt =====
-- A profile that its owner has made private is not served, nor cached by a request that was under
-- way.
use open_profile_be.Entities.Pages.{Profile}
use open_profile_be.Exec.{Result, Returned, continue, err, finally, ok, pure, when, ◌>>◌}
use open_profile_be.Prelude.{
  Bool, Bool-cases, List, Option, String, [], ap, arith, count_where, eq_iff, eq_refl, false, first,
  if◌then◌else◌, inl, inr, map_where, none, refl, some, subst, sym, true, truthy, ℕ, ◌<◌, ◌==◌, ◌∙◌,
  ◌∷◌, ◌≡◌, ◌≤◌,
}
use open_profile_be.Profiles.Pages.Cache.{
  PublicResponse, answer_cached, answer_found, answer_missing, build_locked, build_page, cache_ttl,
  get_public_profile, is_public_page, lock_key, page_key, page_not_found, still_public, write_back,
}
use open_profile_be.Profiles.Reorder.{missing}
use open_profile_be.Profiles.Sections.{invalidate_cache, is_of_user, profile_of_user}
use open_profile_be.Profiles.Visibility.{has_profile_id, update_visibility}
use open_profile_be.Redis.Laws.{peek}
use open_profile_be.Services.{Services}
use open_profile_be.Services.Database.{found_here}
use open_profile_be.Services.Redis.{live}
use open_profile_be.World.{App, World}
use open_profile_be.Redis

abbrev pub has_name : String → Profile → Bool
has_name name p = p.username == name

first-count :
    (q : Profile → Bool) (name : String) (rows : List Profile) (p : Profile)
    → first q rows ≡ some p
    → p.username ≡ name
    → 0 < count_where (has_name name) rows
first-count q name [] p e h = cc
first-count q name (r ∷ rows) p e h =
    ground (arith, eq_iff r.username name, first-count q name rows p)

-- The row of a profile, closed, among rows of which no other has its name.
abbrev closed_row : Profile → ℕ → Profile
closed_row p t = record p { is_public = false; updated_at = t }

abbrev with_closed : Profile → ℕ → List Profile → List Profile
with_closed p t rows = map_where (λ r. r.id == p.id) (λ _. closed_row p t) rows

none_open :
    (name : String) (p : Profile) (t : ℕ) (rows : List Profile)
    → count_where (has_name name) rows ≡ 0
    → first (is_public_page name) (with_closed p t rows) ≡ none
none_open name p t [] h = refl
none_open name p t (r ∷ rows) h = ground (arith, none_open name p t rows)

closed_not_found :
    (q : Profile → Bool) (p : Profile) (t : ℕ) (rows : List Profile)
    → first q rows ≡ some p
    → count_where (has_name p.username) rows ≤ 1
    → first (is_public_page p.username) (with_closed p t rows) ≡ none
closed_not_found q p t [] e h = refl
closed_not_found q p t (r ∷ rows) e h = elim (Bool-cases (q r)) [
  | inl here ↦
      let same : (r ≡ p) = (found_here q r p rows here e) in
      ground (
        arith,
        ap (λ (o : Profile). o.username) same,
        ap (λ (o : Profile). o.id) same,
        eq_refl p.username,
        eq_refl p.id,
        none_open p.username p t rows,
      )
  | inr later ↦ ground (arith, first-count q p.username rows p, closed_not_found q p t rows)
]

closed_flags :
    (p : Profile) (t : ℕ) (rows : List Profile)
    → still_public (first (λ r. r.id == p.id) (with_closed p t rows)) ≡ false
closed_flags p t [] = refl
closed_flags p t (r ∷ rows) = ground (arith, eq_refl p.id, closed_flags p t rows)

module _ (x : Services) where
  answer-missing :
      (name : String) (w : World x)
      → w.redis_up ≡ true
      → ((answer_missing x name w).0 ≡ err page_not_found)
        × ((answer_missing x name w).1.redis_up ≡ true)
  unfolding Redis.set
  answer-missing name w up = ground arith

  build_page-missing :
      (name : String) (w : World x)
      → w.redis_up ≡ true
      → x.pages.profiles.find_one (is_public_page name) w.pages.profiles ≡ none
      → ((build_page x name w).0 ≡ err page_not_found) × ((build_page x name w).1.redis_up ≡ true)
  unfolding build_page
  build_page-missing name w up missing =
      subst
        (λ (o : Option Profile).
          ((answer_found x name o w).0 ≡ err page_not_found)
          × ((answer_found x name o w).1.redis_up ≡ true))
        (sym missing) (answer-missing name w up)

  released :
      (b : Bool) (name : String) (w : World x)
      → w.redis_up ≡ true
      → (when b (Redis.del x (lock_key x name)) w).0 ≡ ok tt
  unfolding Redis.del
  released b name w up = ground arith

  finally_answer :
      (m : App x PublicResponse) (last : App x (Unit {0})) (w : World x)
      → (last (m w).1).0 ≡ ok tt
      → (finally m last w).0 ≡ (m w).0
  finally_answer m last w e =
      ap
        (λ (r : Result (Unit {0})).
          (continue {S = World x} r (λ _ t. ((m w).0, t)) (last (m w).1).1).0)
        e

  under_lock-missing :
      (name : String) (b : Bool) (w : World x)
      → w.redis_up ≡ true
      → x.pages.profiles.find_one (is_public_page name) w.pages.profiles ≡ none
      → (finally (build_page x name) (when b (Redis.del x (lock_key x name))) w).0
        ≡ err page_not_found
  under_lock-missing name b w up missing =
      let built = build_page-missing name w up missing in
      finally_answer (build_page x name) (when b (Redis.del x (lock_key x name))) w
        (released b name (build_page x name w).1 built.1)
      ∙ built.0

  build_locked-missing :
      (name : String) (w : World x)
      → w.redis_up ≡ true
      → x.pages.profiles.find_one (is_public_page name) w.pages.profiles ≡ none
      → (build_locked x name w).0 ≡ err page_not_found
  unfolding build_locked Redis.set_nx
  build_locked-missing name w up missing =
      let reply = x.redis.set_nx w.redis w.now (lock_key x name) "1" (Redis.expiry x w cache_ttl) in
      subst
        (λ (u : Bool).
          (continue
            (if◌then◌else◌ {A = Result Bool × World x} u (ok reply.0, record w { redis = reply.1 })
              (err Redis.redis_error, w)).0
            (λ b. finally (build_page x name) (when b (Redis.del x (lock_key x name))))
            (if◌then◌else◌ {A = Result Bool × World x} u (ok reply.0, record w { redis = reply.1 })
              (err Redis.redis_error, w)).1).0
          ≡ err page_not_found)
        (sym up) (under_lock-missing name reply.0 (record w { redis = reply.1 }) up missing)

  get_public_profile-missing :
      (username : String) (w : World x)
      → w.redis_up ≡ true
      → x.pages.profiles.find_one (is_public_page (x.crypto.to_lower username)) w.pages.profiles
        ≡ none
      → peek x w (page_key x (x.crypto.to_lower username)) ≡ none
      → (get_public_profile x username w).0 ≡ err page_not_found
  unfolding get_public_profile Redis.get
  get_public_profile-missing username w up missing cold =
      let name = x.crypto.to_lower username in
      let Answer : (Bool → Option String → Type 0) = (λ u o.
        (continue
          (if◌then◌else◌ {A = Result (Option String) × World x} u (ok o, w)
            (err Redis.redis_error, w)).0
          (λ cached. answer_cached x name (truthy cached))
          (if◌then◌else◌ {A = Result (Option String) × World x} u (ok o, w)
            (err Redis.redis_error, w)).1).0
        ≡ err page_not_found) in
      subst (λ (u : Bool). Answer u (x.redis.get w.redis w.now (page_key x name))) (sym up)
        (subst (Answer true) (sym (x.redis.get_missing w.redis w.now (page_key x name) cold))
          (build_locked-missing name w up missing))

  -- What the owner's change leaves.
  module _ (user : String) (p : Profile) (w : World x) (owner : profile_of_user x user w ≡ some p)
      (was_public : p.is_public ≡ true) where
    abbrev closed : World x
    closed = (update_visibility x user false w).1

    closed_world :
        Returned (update_visibility x user false w).0
        → (closed.redis_up ≡ true)
          × (x.redis.entry closed.redis (page_key x (x.crypto.to_lower p.username)) ≡ none)
          × (x.pages.profiles.rows closed.pages.profiles
              ≡ with_closed p w.now (x.pages.profiles.rows w.pages.profiles))
    unfolding update_visibility invalidate_cache Redis.del
    closed_world h =
        let k = page_key x (x.crypto.to_lower p.username) in
        ground (
          arith,
          x.redis.entry-del w.redis k k,
          eq_refl k,
          x.pages.profiles.rows-update (has_profile_id x p.id) (λ _. closed_row p w.now)
              w.pages.profiles,
        )

    -- A request that read the page before the change caches nothing after it.
    closed-write_back :
        (name text : String)
        → Returned (update_visibility x user false w).0
        → write_back x name p.id text closed ≡ (ok tt, closed)
    unfolding write_back
    closed-write_back name text h =
        ap (λ b. when b (Redis.set x (page_key x name) text cache_ttl >> pure tt) closed)
          (ap still_public
              (x.pages.profiles.find_one_lem (has_profile_id x p.id) closed.pages.profiles)
            ∙ ap (λ rows. still_public (first (has_profile_id x p.id) rows)) (closed_world h).2
            ∙ closed_flags p w.now (x.pages.profiles.rows w.pages.profiles))

    -- After the owner of a public profile has made it private, a request that read the page before
    -- and checks its flags now caches nothing, and the next request for the page is answered with
    -- 404, whatever was cached before. Usernames are stored in lower case, and no two profiles have
    -- the username.
    pub update_visibility-private :
        (username text : String)
        → x.crypto.to_lower username ≡ p.username
        → x.crypto.to_lower p.username ≡ p.username
        → count_where (has_name p.username) (x.pages.profiles.rows w.pages.profiles) ≤ 1
        → Returned (update_visibility x user false w).0
        → (get_public_profile x username (write_back x p.username p.id text closed).1).0
          ≡ err page_not_found
    update_visibility-private username text lower stored_lower unique h =
        let not_found =
          x.pages.profiles.find_one_lem (is_public_page p.username) closed.pages.profiles
          ∙ ap (first (is_public_page p.username)) (closed_world h).2
          ∙ closed_not_found (is_of_user user) p w.now (x.pages.profiles.rows w.pages.profiles)
              (sym (x.pages.profiles.find_one_lem (is_of_user user) w.pages.profiles) ∙ owner)
              unique in
        subst (λ (v : World x). (get_public_profile x username v).0 ≡ err page_not_found)
          (sym
            (ap (λ (r : Result (Unit {0}) × World x). r.1) (closed-write_back p.username text h)))
          (get_public_profile-missing username closed (closed_world h).0
            (subst (λ n. x.pages.profiles.find_one (is_public_page n) closed.pages.profiles ≡ none)
              (sym lower) not_found)
            (subst (λ n. peek x closed (page_key x n) ≡ none) (stored_lower ∙ sym lower)
              (ap (live closed.now) (closed_world h).1)))

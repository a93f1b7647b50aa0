-- ===== src/Usernames/Grammar.antt =====
-- The names that `check` accepts, by a grammar.
use open_profile_be.Entities.Pages.{Profile}
use open_profile_be.Exec.{gets, ok, pure}
use open_profile_be.Prelude.{
  Bool, Bool-cases, List, Option, String, [], any, any-first, ap, arith, codes, false,
  if◌then◌else◌, inl, inr, is_some, length, le→ltb, ltb, ltb→le, not, refl, subst, sym, true, ℕ,
  ◌==◌, ◌||◌, ◌↔◌, ◌∙◌, ◌∷◌, ◌≡◌, ◌≤◌,
}
use open_profile_be.Services.{Services}
use open_profile_be.Usernames.{
  all_allowed, available, check, ends_alphanumeric, has_double_hyphen, has_invalid_format,
  has_username, invalid_format, is_alphanumeric, is_ambiguous, matches_format, normalized,
  reserved_usernames, unavailable, unless_taken,
}
use open_profile_be.World.{World}

-- rest ::= ε | [a-z0-9] rest | "-" [a-z0-9] rest
pub data IsRest : List ℕ → Type 0 where
  nothing : IsRest []
  letter : {c : ℕ} {cs : List ℕ} → is_alphanumeric c ≡ true → IsRest cs → IsRest (c ∷ cs)
  hyphen : {c : ℕ} {cs : List ℕ} → is_alphanumeric c ≡ true → IsRest cs → IsRest (45 ∷ c ∷ cs)

-- name ::= [a-z0-9] rest
pub data IsName : List ℕ → Type 0 where
  starting : {c : ℕ} {cs : List ℕ} → is_alphanumeric c ≡ true → IsRest cs → IsName (c ∷ cs)

format-IsRest :
    (c : ℕ) (cs : List ℕ)
    → all_allowed cs ≡ true
    → ends_alphanumeric c cs ≡ true
    → has_double_hyphen cs ≡ false
    → IsRest cs
unfolding has_double_hyphen
format-IsRest c [] a e d = nothing
format-IsRest c (b ∷ []) a e d = letter e nothing
format-IsRest c (b ∷ b' ∷ cs) a e d = elim (Bool-cases (is_alphanumeric b)) [
  | inl word ↦ letter word (format-IsRest b (b' ∷ cs) (ground arith) e (ground arith))
  | inr other ↦
      let dash : (45 ≡ b) = (ground arith) in
      subst (λ n. IsRest (n ∷ b' ∷ cs)) dash
        (hyphen (ground arith) (format-IsRest b' cs (ground arith) e (ground arith)))
]

rest-Accepted :
    (cs : List ℕ)
    → IsRest cs
    → (c : ℕ) → is_alphanumeric c ≡ true
    → (all_allowed cs ≡ true)
      × (ends_alphanumeric c cs ≡ true)
      × (has_double_hyphen (c ∷ cs) ≡ false)
unfolding has_double_hyphen
rest-Accepted [] nothing c h = (refl, h, ground arith)
rest-Accepted (d ∷ cs) (letter word rest) c h =
    let tail = rest-Accepted cs rest d word in (ground arith, tail.1, ground arith)
rest-Accepted (b ∷ d ∷ cs) (hyphen word rest) c h =
    let tail = rest-Accepted cs rest d word in (ground arith, tail.1, ground arith)

name-Accepted :
    (cs : List ℕ) → IsName cs → (matches_format cs ≡ true) × (has_double_hyphen cs ≡ false)
unfolding matches_format has_double_hyphen
name-Accepted [] name = elim name [ ]
name-Accepted (c ∷ cs) (starting word rest) =
    let tail = rest-Accepted cs rest c word in (ground (arith, tail), tail.2)

accepted-IsName :
    (cs : List ℕ) → matches_format cs ≡ true → has_double_hyphen cs ≡ false → IsName cs
unfolding matches_format has_double_hyphen
accepted-IsName [] h d = absurd (ground arith)
accepted-IsName (c ∷ cs) h d =
    starting (ground arith) (format-IsRest c cs (ground arith) (ground arith) (ground arith))

-- A name is good where it is 3 to 30 characters long, has no ambiguous one, is no reserved word,
-- and is of the grammar.
pub record IsGoodName (name : String) : Type 0 where
  pub grammatical : IsName (codes name)
  pub long_enough : 3 ≤ length (codes name)
  pub short_enough : length (codes name) ≤ 30
  pub unambiguous : any is_ambiguous (codes name) ≡ false
  pub unreserved : any (λ word. word == name) reserved_usernames ≡ false

true_of_not : (a : Bool) → not a ≡ false → a ≡ true
true_of_not a h = ground arith

not_of_true : (a : Bool) → a ≡ true → not a ≡ false
not_of_true a h = ground arith

all-false :
    (a b c d e f : Bool)
    → a || b || c || d || e || f ≡ false
    → (a ≡ false) × (b ≡ false) × (c ≡ false) × (d ≡ false) × (e ≡ false) × (f ≡ false)
all-false a b c d e f h = ground arith

any-false :
    (a b c d e f : Bool)
    → a ≡ false
    → b ≡ false
    → c ≡ false
    → d ≡ false
    → e ≡ false
    → f ≡ false
    → a || b || c || d || e || f ≡ false
any-false a b c d e f = ground arith

module _ (name : String) where
  good-name : has_invalid_format name ≡ false → IsGoodName name
  unfolding has_invalid_format
  good-name h =
      let parts =
        all-false (any is_ambiguous (codes name)) (ltb (length (codes name)) 3)
          (ltb 30 (length (codes name))) (not (matches_format (codes name)))
          (has_double_hyphen (codes name)) (any (λ word. word == name) reserved_usernames) h in
      record {
        grammatical =
            accepted-IsName (codes name) (true_of_not (matches_format (codes name)) parts.3)
              parts.4;
        long_enough = ltb→le (length (codes name)) 3 parts.1;
        short_enough = ltb→le 30 (length (codes name)) parts.2;
        unambiguous = parts.0;
        unreserved = parts.5;
      }

  good-format : IsGoodName name → has_invalid_format name ≡ false
  unfolding has_invalid_format
  good-format g =
      let accepted = name-Accepted (codes name) g.grammatical in
      any-false (any is_ambiguous (codes name)) (ltb (length (codes name)) 3)
        (ltb 30 (length (codes name))) (not (matches_format (codes name)))
        (has_double_hyphen (codes name)) (any (λ word. word == name) reserved_usernames)
        g.unambiguous (le→ltb (length (codes name)) 3 g.long_enough)
        (le→ltb 30 (length (codes name)) g.short_enough)
        (not_of_true (matches_format (codes name)) accepted.0) accepted.1 g.unreserved

module _ (x : Services) (raw name : String) (w : World x) where
  found_profile : World x → Option Profile
  found_profile v = x.pages.profiles.find_one (has_username (normalized x raw)) v.pages.profiles

  any-found :
      any (has_username (normalized x raw)) (x.pages.profiles.rows w.pages.profiles)
      ≡ is_some (found_profile w)
  unfolding found_profile
  any-found =
      any-first (has_username (normalized x raw)) (x.pages.profiles.rows w.pages.profiles)
      ∙ ap (is_some {A = Profile})
          (sym (x.pages.profiles.find_one_lem (has_username (normalized x raw)) w.pages.profiles))

  answer_lem :
      (bad : Bool) (n : String) (found : World x → Option Profile)
      → (((if bad
              then pure (unavailable invalid_format)
              else gets (λ v. unless_taken x n (found v)))
            w).0
          ≡ ok (available name))
        ↔ ((name ≡ n) × (bad ≡ false) × (is_some (found w) ≡ false))
  answer_lem true n found = ground arith
  answer_lem false n found = ground arith

  -- A username is available exactly where its trimmed lower-case form is a good name that no
  -- profile has but a deleted one, and that form is what the check answers.
  pub check-available : ((check x raw w).0 ≡ ok (available name)) ↔ (
      (name ≡ normalized x raw)
      × IsGoodName name
      × (any (has_username name) (x.pages.profiles.rows w.pages.profiles) ≡ false))
  unfolding check found_profile
  check-available = (
    λ e.
        let given =
          (answer_lem (has_invalid_format (normalized x raw)) (normalized x raw) found_profile).0
            e in
        (
          given.0,
          subst IsGoodName (sym given.0) (good-name (normalized x raw) given.1),
          subst (λ n. any (has_username n) (x.pages.profiles.rows w.pages.profiles) ≡ false)
              (sym given.0) (any-found ∙ given.2),
        ),
    λ h. (answer_lem (has_invalid_format (normalized x raw)) (normalized x raw) found_profile).1 (
      h.0,
      good-format (normalized x raw) (subst IsGoodName h.0 h.1),
      sym any-found
          ∙ subst (λ n. any (has_username n) (x.pages.profiles.rows w.pages.profiles) ≡ false) h.0
              h.2,
    ),
  )

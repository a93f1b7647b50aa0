-- ===== src/Profiles/Precedence.antt =====
-- Which of several values of a field counts, by cases on what is there: the description that the
-- theorems on drafts use.
use open_profile_be.Prelude.{Option, none, or_else, refl, some, ◌≡◌}
use open_profile_be.Accounts.{or_keep}
use open_profile_be.Profiles.Drafts.{or_existing}

-- The new value where there is one, and the old one where there is none.
abbrev pub Chosen : {A : Type 0} → (new old result : Option A) → Type 0
Chosen (some a) old result = result ≡ some a
Chosen none old result = result ≡ old

abbrev pub ChosenValue : {A : Type 0} → (new : Option A) → (old result : A) → Type 0
ChosenValue (some a) old result = result ≡ a
ChosenValue none old result = result ≡ old

-- The given field, null included, and the old one where none is given.
abbrev pub Given : {A : Type 0} → (given : Option (Option A)) → (old result : Option A) → Type 0
Given (some new) old result = result ≡ new
Given none old result = result ≡ old

-- A given value first; the profile's where null is given; else the draft's, and then the profile's.
abbrev pub Shown :
    {A : Type 0} → (given : Option (Option A)) → (drafted stored result : Option A) → Type 0
Shown (some (some a)) drafted stored result = result ≡ some a
Shown (some none) drafted stored result = result ≡ stored
Shown none drafted stored result = Chosen drafted stored result

pub or_else-Chosen : {A : Type 0} (new old : Option A) → Chosen new old (or_else new old)
or_else-Chosen (some a) old = refl
or_else-Chosen none old = refl

pub or_keep-ChosenValue :
    {A : Type 0} (new : Option A) (old : A) → ChosenValue new old (or_keep new old)
or_keep-ChosenValue (some a) old = refl
or_keep-ChosenValue none old = refl

pub or_existing-Given :
    {A : Type 0} (given : Option (Option A)) (old : Option A)
    → Given given old (or_existing given old)
or_existing-Given (some new) old = refl
or_existing-Given none old = refl

pub or_existing-Shown :
    {A : Type 0} (given : Option (Option A)) (drafted stored : Option A)
    → Shown given drafted stored (or_else (or_existing given drafted) stored)
or_existing-Shown (some (some a)) drafted stored = refl
or_existing-Shown (some none) drafted stored = refl
or_existing-Shown none drafted stored = or_else-Chosen drafted stored

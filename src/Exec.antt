-- ===== src/Exec.antt =====
-- Code that mutates its surroundings and may throw. What was written before a throw stays
-- written, so the state comes back beside the exception too.
pub mod Laws
pub mod Keeps
use open_profile_be.Prelude.{Bool, Option, String, false, none, some, true, ℕ}

-- An HTTP exception has its status and its error code, or its message where it has no code.
pub data Exception : Type 0 where
  http : (status : ℕ) (code : String) → Exception
  -- RefreshInProgressException of modules/auth/services/token.service.ts
  refresh_in_progress : Exception
  -- An error that a driver raises, such as a lost connection.
  infrastructure : String → Exception

pub data Result {ℓ} (A : Type ℓ) : Type ℓ where
  ok : A → Result A
  err : Exception → Result A

abbrev pub Exec {ℓ} : Type ℓ → Type ℓ → Type ℓ
Exec S A = S → Result A × S

abbrev pub continue {ℓ} : {S A B : Type ℓ} → Result A → (A → Exec S B) → Exec S B
continue (ok a) f s = f a s
continue (err e) f s = (err e, s)

-- The handler of a `catch`: it runs in the state that the throw left.
abbrev pub handle {ℓ} : {S A : Type ℓ} → Result A → (Exception → Exec S A) → Exec S A
handle (ok a) h s = (ok a, s)
handle (err e) h s = h e s

infixl 5 ◌>>=◌ ◌>>◌
abbrev pub ◌>>=◌ {ℓ} : {S A B : Type ℓ} → Exec S A → (A → Exec S B) → Exec S B
◌>>=◌ m f s = continue (m s).0 f (m s).1

abbrev pub ◌>>◌ {ℓ} : {S A B : Type ℓ} → Exec S A → Exec S B → Exec S B
◌>>◌ m n s = continue (m s).0 (λ _. n) (m s).1

abbrev pub pure {ℓ} : {S A : Type ℓ} → A → Exec S A
pure a s = (ok a, s)

abbrev pub throw {ℓ} : {S A : Type ℓ} → Exception → Exec S A
throw e s = (err e, s)

abbrev pub gets {ℓ} : {S A : Type ℓ} → (S → A) → Exec S A
gets f s = (ok (f s), s)

abbrev pub modify : {S : Type 0} → (S → S) → Exec S (Unit {0})
modify f s = (ok tt, f s)

abbrev pub catch {ℓ} : {S A : Type ℓ} → Exec S A → (Exception → Exec S A) → Exec S A
catch m h s = handle (m s).0 h (m s).1

-- `finally`: the last part runs after a throw too, and its own throw wins.
abbrev pub finally : {S A : Type 0} → Exec S A → Exec S (Unit {0}) → Exec S A
finally m last s = continue (last (m s).1).0 (λ _ t. ((m s).0, t)) (last (m s).1).1

abbrev pub require {ℓ} : {S A : Type ℓ} → Option A → Exception → Exec S A
require none e = throw e
require (some a) e = pure a

-- A guard `if (b) throw e;`
abbrev pub throw_if : {S : Type 0} → Bool → Exception → Exec S (Unit {0})
throw_if true e = throw e
throw_if false e = pure tt

-- `if (b) m;`
abbrev pub when : {S : Type 0} → Bool → Exec S (Unit {0}) → Exec S (Unit {0})
when true m = m
when false m = pure tt

-- A database transaction: a throw undoes what it wrote.
abbrev pub commit {ℓ} : {S A : Type ℓ} → Result A → S → S → Result A × S
commit (ok a) before after = (ok a, after)
commit (err e) before after = (err e, before)

abbrev pub transaction {ℓ} : {S A : Type ℓ} → Exec S A → Exec S A
transaction m s = commit (m s).0 s (m s).1

-- A step that returned.
abbrev pub Returned {ℓ} : {A : Type ℓ} → Result A → Type 0
Returned (ok a) = Unit
Returned (err e) = ⊥

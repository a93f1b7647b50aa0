-- ===== src/Exec/Keeps.antt =====
-- What a step keeps true, whether it returns or throws.
use open_profile_be.Exec.{
  Exception, Exec, Result, catch, continue, err, gets, handle, ok, pure, require, throw, throw_if,
  when, ◌>>=◌, ◌>>◌,
}
use open_profile_be.Prelude.{Bool, Option, false, if◌then◌else◌, none, some, true}

-- `m` keeps `P`.
pub record Keeps {S A : Type 0} (P : S → Type 0) (m : Exec S A) : Type 0 where
  pub at : (s : S) → P s → P (m s).1

module _ {S A : Type 0} {P : S → Type 0} where
  pub Keeps-pure : (a : A) → Keeps P (pure a)
  Keeps-pure a = record { at = λ s h. h }

  pub Keeps-throw : (e : Exception) → Keeps P (throw {A = A} e)
  Keeps-throw e = record { at = λ s h. h }

  pub Keeps-gets : (f : S → A) → Keeps P (gets f)
  Keeps-gets f = record { at = λ s h. h }

  pub Keeps-require : (o : Option A) (e : Exception) → Keeps P (require o e)
  Keeps-require none e = record { at = λ s h. h }
  Keeps-require (some a) e = record { at = λ s h. h }

  pub Keeps-choice :
      (b : Bool) (m n : Exec S A) → Keeps P m → Keeps P n → Keeps P (if b then m else n)
  Keeps-choice true m n km kn = km
  Keeps-choice false m n km kn = kn

  Keeps-handle :
      (r : Result A) (h : Exception → Exec S A)
      → ((e : Exception) → Keeps P (h e))
      → Keeps P (handle r h)
  Keeps-handle (ok a) h kh = record { at = λ s p. p }
  Keeps-handle (err e) h kh = kh e

  pub Keeps-catch :
      (m : Exec S A) (h : Exception → Exec S A)
      → Keeps P m
      → ((e : Exception) → Keeps P (h e))
      → Keeps P (catch m h)
  Keeps-catch m h km kh = record { at = λ s p. (Keeps-handle (m s).0 h kh).at (m s).1 (km.at s p) }

module _ {S : Type 0} {P : S → Type 0} where
  pub Keeps-throw_if : (b : Bool) (e : Exception) → Keeps P (throw_if b e)
  Keeps-throw_if true e = record { at = λ s h. h }
  Keeps-throw_if false e = record { at = λ s h. h }

  pub Keeps-when : (b : Bool) (m : Exec S (Unit {0})) → Keeps P m → Keeps P (when b m)
  Keeps-when true m km = km
  Keeps-when false m km = record { at = λ s h. h }

module _ {S A B : Type 0} {P : S → Type 0} where
  Keeps-continue :
      (r : Result A) (f : A → Exec S B) → ((a : A) → Keeps P (f a)) → Keeps P (continue r f)
  Keeps-continue (ok a) f kf = kf a
  Keeps-continue (err e) f kf = record { at = λ s h. h }

  pub Keeps-bind :
      (m : Exec S A) (f : A → Exec S B) → Keeps P m → ((a : A) → Keeps P (f a)) → Keeps P (m >>= f)
  Keeps-bind m f km kf = record { at = λ s h. (Keeps-continue (m s).0 f kf).at (m s).1 (km.at s h) }

  pub Keeps-then : (m : Exec S A) (n : Exec S B) → Keeps P m → Keeps P n → Keeps P (m >> n)
  Keeps-then m n km kn = record {
    at = λ s h. (Keeps-continue (m s).0 (λ _. n) (λ _. kn)).at (m s).1 (km.at s h);
  }

pub ruleset keeps_rules = (
  Keeps-pure, Keeps-throw, Keeps-gets, Keeps-require, Keeps-choice, Keeps-catch, Keeps-throw_if,
  Keeps-when, Keeps-bind, Keeps-then,
)

-- ===== src/Exec/Laws.antt =====
-- Equations of steps.
use open_profile_be.Exec.{Exec, Result, continue, err, ok}
use open_profile_be.Prelude.{refl, ◌≡◌}

-- What a step answers where what follows it answers alike.
pub same_answer :
    {S A B : Type 0} (r : Result A) (f g : A → Exec S B)
    → ((a : A) (s : S) → (f a s).0 ≡ (g a s).0)
    → (s : S) → (continue r f s).0 ≡ (continue r g s).0
same_answer (ok a) f g h s = h a s
same_answer (err e) f g h s = refl

-- ===== src/Common/Deciding.antt =====
-- Boolean tests that decide a proposition, and their connectives.
use mathlib.Core.Path.{◌≡◌, refl}
use mathlib.Core.Logic.{◌↔◌, ◌⊎◌, inl, inr}
use mathlib.Core.Bool.{Bool, true, false, not, ◌&&◌, ◌||◌}
use native.Mathlib.Omega.{arith}

abbrev pub Decides : Bool → Type 0 → Type 0
Decides b P = (b ≡ true) ↔ P

module _ {P Q : Type 0} where
  pub or-Decides : (p q : Bool) → Decides p P → Decides q Q → Decides (p || q) (P ⊎ Q)
  or-Decides true q hp hq = (λ e. inl (hp.0 refl), λ h. refl)
  or-Decides false q hp hq =
      (λ e. inr (hq.0 e), λ h. elim h [ inl x ↦ ground (arith, hp.1 x) | inr y ↦ hq.1 y ])

  pub and-Decides : (p q : Bool) → Decides p P → Decides q Q → Decides (p && q) (P × Q)
  and-Decides true q hp hq = (λ e. (hp.0 refl, hq.0 e), λ h. hq.1 h.1)
  and-Decides false q hp hq = (λ e. ground (arith, e), λ h. hp.1 h.0)

pub not-Decides : {P : Type 0} (p : Bool) → Decides p P → Decides (not p) (¬ P)
not-Decides true hp = (λ e x. ground (arith, e), λ h. ground (arith, h (hp.0 refl)))
not-Decides false hp = (λ e x. ground (arith, hp.1 x), λ h. refl)

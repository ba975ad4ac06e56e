-- ===== src/Prelude/While.antt =====
-- A `while` loop as a relation between the state it begins in and the state it ends in.
use mathlib.Core.Path.{◌≡◌, sym, subst, ◌∙◌}
use mathlib.Core.Logic.{◌↔◌}
use mathlib.Core.Bool.{Bool, true, false}

-- The loop ends in `final`: there is no such state for a loop that runs for ever.
pub data While {S : Type 0} (test : S → Bool) (body : S → S) (final : S) : S → Type 0 where
  stop : (s : S) → test s ≡ false → final ≡ s → While test body final s
  round : (s : S) → test s ≡ true → While test body final (body s) → While test body final s

module _ {S : Type 0} (test : S → Bool) (body : S → S) where
  While-same :
      (final other s : S) → While test body final s → While test body other s → final ≡ other
  While-same final other s (While.stop _ e p) (While.stop _ e' q) = p ∙ sym q
  While-same final other s (While.stop _ e p) (While.round _ e' b) = absurd cc
  While-same final other s (While.round _ e a) (While.stop _ e' q) = absurd cc
  While-same final other s (While.round _ e a) (While.round _ e' b) =
      While-same final other (body s) a b

  -- A loop that ends in `result` ends there and nowhere else.
  pub ends_only :
      (s result final : S) → While test body result s → While test body final s ↔ (final ≡ result)
  ends_only s result final w =
      ((λ v. While-same final result s v w), λ e. subst (λ f. While test body f s) (sym e) w)

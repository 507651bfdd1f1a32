-- ===== src/Base/Group.antt =====
-- JavaScript's `Set`, as a list without repetition in insertion order.
use mathlib.Core.Path.{◌≡◌, refl}
use mathlib.Core.Bool.{Bool, false, ◌||◌}
use mathlib.Core.List.{List, [], ◌∷◌, ◌++◌}
use native.Mathlib.Omega.{arith}
use sockethub.Base.Tests.{if◌then◌else◌}
use sockethub.Base.Keys.{Eq, ◌==◌}

module _ {ℓ} {K : Type ℓ} ⦃e : Eq K⦄ where
  unfoldable pub member : K → List K → Bool
  member k [] = false
  member k (j ∷ s) = j == k || member k s

  unfoldable pub add : K → List K → List K
  unfolding member
  add k s = if member k s then s else s ++ k ∷ []

  unfoldable pub remove : K → List K → List K
  remove k [] = []
  remove k (j ∷ s) = if j == k then remove k s else j ∷ remove k s

  pub member-append : (j : K) (s t : List K) → member j (s ++ t) ≡ (member j s || member j t)
  unfolding member
  member-append j [] t = refl
  member-append j (i ∷ s) t = ground (arith, member-append j s t)

  pub member-add : (k j : K) (s : List K) → member j (add k s) ≡ (k == j || member j s)
  unfolding add member
  member-add k j s = ground (arith, member-append j s (k ∷ []), e.beq_iff k j)

  pub member-remove :
      (k j : K) (s : List K) → member j (remove k s) ≡ (if k == j then false else member j s)
  unfolding member remove
  member-remove k j [] = ground arith
  member-remove k j (i ∷ s) =
      ground (arith, e.beq_iff k j, e.beq_iff i k, e.beq_iff i j, member-remove k j s)

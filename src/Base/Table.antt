-- ===== src/Base/Table.antt =====
-- JavaScript's `Map`, as an association list in insertion order.
use mathlib.Core.Path.{◌≡◌, refl}
use mathlib.Core.Logic.{◌≢◌}
use mathlib.Core.Bool.{Bool}
use mathlib.Core.Option.{Option, none, some}
use mathlib.Core.List.{List, [], ◌∷◌}
use native.Mathlib.Omega.{arith}
use Prim.Native.Nat.{suc, ◌≤◌, ◌<◌}
use sockethub.Base.Lists.{length}
use sockethub.Base.Tests.{if◌then◌else◌, is_some}
use sockethub.Base.Keys.{Eq, ◌==◌, eq_refl}

abbrev pub Table {ℓ κ} : Type ℓ → Type κ → Type (ℓ ⊔ κ)
Table K V = List (K × V)

module _ {ℓ κ} {K : Type ℓ} {V : Type κ} ⦃e : Eq K⦄ where
  unfoldable pub get : K → Table K V → Option V
  get k [] = none
  get k ((j, v) ∷ m) = if j == k then some v else get k m

  -- An old key keeps its place.
  unfoldable pub set : K → V → Table K V → Table K V
  set k v [] = (k, v) ∷ []
  set k v ((j, w) ∷ m) = if j == k then (k, v) ∷ m else (j, w) ∷ set k v m

  unfoldable pub delete : K → Table K V → Table K V
  delete k [] = []
  delete k ((j, w) ∷ m) = if j == k then delete k m else (j, w) ∷ delete k m

  abbrev pub has : K → Table K V → Bool
  has k m = is_some (get k m)

  pub get-set :
      (k j : K) (v : V) (m : Table K V) → get j (set k v m) ≡ (if k == j then some v else get j m)
  unfolding get set
  get-set k j v [] = refl
  get-set k j v ((i, w) ∷ m) =
      ground (arith, e.beq_iff k j, e.beq_iff i k, e.beq_iff i j, get-set k j v m)

  pub get-set_self : (k : K) (v : V) (m : Table K V) → get k (set k v m) ≡ some v
  get-set_self k v m = rw (get-set k k v m, eq_refl k)

  pub get-set_ne : (k j : K) (v : V) (m : Table K V) → k ≢ j → get j (set k v m) ≡ get j m
  get-set_ne k j v m n = ground (arith, get-set k j v m, e.beq_iff k j)

  pub get-delete :
      (k j : K) (m : Table K V) → get j (delete k m) ≡ (if k == j then none else get j m)
  unfolding get delete
  get-delete k j [] = ground arith
  get-delete k j ((i, w) ∷ m) =
      ground (arith, e.beq_iff k j, e.beq_iff i k, e.beq_iff i j, get-delete k j m)

  -- No key stands twice, as in every `Map`.
  abbrev pub Distinct : Table K V → Type κ
  Distinct [] = Unit
  Distinct ((j, w) ∷ m) = (get j m ≡ none) × Distinct m

  pub set-Distinct : (k : K) (v : V) (m : Table K V) → Distinct m → Distinct (set k v m)
  unfolding set get
  set-Distinct k v [] h = (refl, tt)
  set-Distinct k v ((i, w) ∷ m) h =
      ground (arith, e.beq_iff i k, e.beq_iff k i, get-set k i v m, set-Distinct k v m h.1)

  pub delete-Distinct : (k : K) (m : Table K V) → Distinct m → Distinct (delete k m)
  unfolding delete
  delete-Distinct k [] h = tt
  delete-Distinct k ((i, w) ∷ m) h = ground (arith, get-delete k i m, delete-Distinct k m h.1)

  pub length-set :
      (k : K) (v : V) (m : Table K V)
      → length (set k v m) ≡ (if has k m then length m else suc (length m))
  unfolding set get
  length-set k v [] = refl
  length-set k v ((j, w) ∷ m) = ground (arith, length-set k v m)

  pub length-delete_le : (k : K) (m : Table K V) → length (delete k m) ≤ length m
  unfolding delete
  length-delete_le k [] = omega arith
  length-delete_le k ((j, w) ∷ m) = ground (arith, length-delete_le k m)

  pub length-delete_lt :
      (k : K) (v : V) (m : Table K V) → get k m ≡ some v → length (delete k m) < length m
  unfolding delete get
  length-delete_lt k v [] h = cc
  length-delete_lt k v ((j, w) ∷ m) h = ground (arith, length-delete_le k m, length-delete_lt k v m)

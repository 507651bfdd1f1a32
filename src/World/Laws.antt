-- ===== src/World/Laws.antt =====
-- Reading the state after a write.
use sockethub.Base.{
  ℕ, ◌≡◌, ◌≢◌, true, Option, none, some, arith, nat_eq, text_eq, eq_refl, nat_beq_iff, Option-cases,
  inl, inr,
}
use sockethub.Base.Table.{get, set, get-set, get-set_self}
use sockethub.World.{Instance, World, modify, same_ref}

module _ (ref : ℕ) (f : Instance → Instance) (w : World) where
  pub modify-some :
      (i : Instance)
      → get ref w.heap ≡ some i
      → modify ref f w ≡ record w { heap = set ref (f i) w.heap }
  unfolding modify
  modify-some i e = rw (e, modify)

  pub get-modify_self :
      (i : Instance) → get ref w.heap ≡ some i → get ref (modify ref f w).heap ≡ some (f i)
  get-modify_self i e = rw (modify-some i e) (get-set_self ref (f i) w.heap)

pub get-modify_ne :
    (ref r : ℕ) (f : Instance → Instance) (w : World)
    → r ≢ ref
    → get r (modify ref f w).heap ≡ get r w.heap
unfolding modify
get-modify_ne ref r f w n = elim (Option-cases (get ref w.heap)) [
  | inl none_there ↦ rw (none_there, modify)
  | inr (i, e) ↦ rw (e, modify) (ground (arith, get-set ref r (f i) w.heap, nat_beq_iff ref r))
]

pub same_ref_iff : (ref : ℕ) (o : Option ℕ) → same_ref ref o ≡ true → o ≡ some ref
same_ref_iff ref none e = cc
same_ref_iff ref (some r) e = ground (arith, nat_beq_iff r ref)

pub same_ref_self : (ref : ℕ) → same_ref ref (some ref) ≡ true
same_ref_self ref = eq_refl ref

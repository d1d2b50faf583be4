-- ===== src/Server/Permissions.antt =====
-- The permission check of `VerifyKey` decides inclusion of the required permissions.
use mathlib.Core.Bool.{Bool-set}
use mathlib.Core.List.{Mem, mem-cons, mem-cons_self, mem-cons_of_mem, not-mem-nil}
use mathlib.Core.Logic.Or
use keychain.Base.{
  String, String-Comparable, ◌≡◌, refl, ◌↔◌, true, List, [], ◌∷◌, ◌==◌, eq_iff, arith, Bool-cases,
  inl, inr, equal_refl,
}
use keychain.Base.Lists.{any}
use keychain.Server.Verify.{in_set, has_all_permissions}

in_set-Mem : (have : List String) (p : String) → in_set have p ≡ true → Mem p have
unfolding in_set any
in_set-Mem [] p h = cc
in_set-Mem (q ∷ have) p h = elim (Bool-cases (q == p)) [
  | inl e ↦ rw ((eq_iff q p).0 e) mem-cons_self
  | inr e ↦ mem-cons_of_mem q (in_set-Mem have p (rw e at h))
]

Mem-in_set : (have : List String) (p : String) → Mem p have → in_set have p ≡ true
unfolding in_set any
Mem-in_set [] p h = absurd (not-mem-nil h)
Mem-in_set (q ∷ have) p h =
    Or.elim (Bool-set _ _) (mem-cons.0 h) (λ e. rw (e, equal_refl q))
      (λ r. let rest = Mem-in_set have p r in ground (arith, rest))

-- Every required permission is on the key.
abbrev pub Includes : List String → List String → Type 0
Includes have required = (p : String) → Mem p required → Mem p have

has_all-Includes :
    (have required : List String)
    → has_all_permissions have required ≡ true
    → Includes have required
unfolding has_all_permissions
has_all-Includes have [] h p m = absurd (not-mem-nil m)
has_all-Includes have (q ∷ required) h p m = elim (Bool-cases (in_set have q)) [
  | inl e ↦
      Or.elim squash₁ (mem-cons.0 m) (λ same. rw same (in_set-Mem have q e))
        (has_all-Includes have required (rw e at h) p)
  | inr e ↦ cc (rw e at h)
]

Includes-has_all :
    (have required : List String)
    → Includes have required
    → has_all_permissions have required ≡ true
unfolding has_all_permissions
Includes-has_all have [] h = refl
Includes-has_all have (q ∷ required) h =
    rw (Mem-in_set have q (h q mem-cons_self))
      (Includes-has_all have required (λ p m. h p (mem-cons_of_mem q m)))

-- hasAllPermissions is true exactly when every required permission is among those of the key.
pub has_all_permissions_iff :
    (have required : List String)
    → (has_all_permissions have required ≡ true) ↔ Includes have required
has_all_permissions_iff have required =
    (has_all-Includes have required, Includes-has_all have required)

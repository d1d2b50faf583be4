-- ===== src/Base/Map.antt =====
-- Go's `map[K]V` as a list of entries. The order of the entries stands for the order in which a
-- `range` loop happens to visit them.
use mathlib.Core.Path.{◌≡◌, refl, fun_ext}
use Prim.Native.String.{String}
use mathlib.Core.Logic.{◌≢◌, inl, inr}
use mathlib.Core.Option.{Option, none, some}
use mathlib.Core.List.{List, [], ◌∷◌}
use native.Mathlib.Omega.{arith}
use keychain.Base.Tests.{
  Comparable, String-Comparable, ◌==◌, if◌then◌else◌, equal_refl, equal_ne, Bool-cases,
}

abbrev pub Map {ℓ} : Type ℓ → Type ℓ → Type ℓ
Map K V = List (K × V)

module _ {ℓ} {K V : Type ℓ} ⦃e : Comparable K⦄ where
  -- v, ok := m[k]
  unfoldable pub get : K → Map K V → Option V
  get k [] = none
  get k ((j, v) ∷ m) = if j == k then some v else get k m

  -- m[k] = v
  unfoldable pub put : K → V → Map K V → Map K V
  put k v [] = (k, v) ∷ []
  put k v ((j, w) ∷ m) = if j == k then (j, v) ∷ m else (j, w) ∷ put k v m

  -- delete(m, k)
  unfoldable pub delete : K → Map K V → Map K V
  delete k [] = []
  delete k ((j, v) ∷ m) = let rest = delete k m in if j == k then rest else (j, v) ∷ rest

  pub get-put :
      (k j : K) (v : V) (m : Map K V) → get j (put k v m) ≡ (if k == j then some v else get j m)
  unfolding get put
  get-put k j v [] = refl
  get-put k j v ((i, w) ∷ m) =
      ground (arith, e.equal_iff k j, e.equal_iff i k, e.equal_iff i j, get-put k j v m)

  pub get-delete : (k j : K) (m : Map K V) → get j (delete k m) ≡ (if k == j then none else get j m)
  unfolding get delete
  get-delete k j [] = ground arith
  get-delete k j ((i, w) ∷ m) =
      ground (arith, e.equal_iff k j, e.equal_iff i k, e.equal_iff i j, get-delete k j m)

  pub get-put_self : (k : K) (v : V) (m : Map K V) → get k (put k v m) ≡ some v
  get-put_self k v m = rw (get-put k k v m, equal_refl k)

  pub get-put_ne : (k j : K) (v : V) (m : Map K V) → k ≢ j → get j (put k v m) ≡ get j m
  get-put_ne k j v m h = rw (get-put k j v m, equal_ne k j h)

-- A map as a function, with one more entry.
abbrev pub update {ℓ} : {V : Type ℓ} → String → V → (String → Option V) → String → Option V
update id v f j = if id == j then some v else f j

pub get-put-update :
    {V : Type 0} (id : String) (v : V) (m : Map String V)
    → ◌≡◌ {A = String → Option V} (λ j. get j (put id v m)) (update id v (λ j. get j m))
get-put-update id v m = fun_ext λ j. get-put id j v m

-- A write keeps every key present.
pub get-put-some :
    {V : Type 0} (id j : String) (v w : V) (m : Map String V)
    → get j m ≡ some v
    → (u : V) × (get j (put id w m) ≡ some u)
get-put-some id j v w m e = elim (Bool-cases (id == j)) [
  | inl hit ↦ (w, rw (get-put id j w m, hit))
  | inr miss ↦ (v, rw (get-put id j w m, miss) e)
]

-- No id has two entries, as in every Go map.
abbrev pub IsDistinct {ℓ} : {K V : Type ℓ} ⦃e : Comparable K⦄ → Map K V → Type ℓ
IsDistinct [] = Unit
IsDistinct ((k, v) ∷ m) = (get k m ≡ none) × IsDistinct m

module _ {ℓ} {K V : Type ℓ} ⦃e : Comparable K⦄ where
  pub put-IsDistinct : (k : K) (v : V) (m : Map K V) → IsDistinct m → IsDistinct (put k v m)
  unfolding get put
  put-IsDistinct k v [] d = (refl, tt)
  put-IsDistinct k v ((j, w) ∷ m) d = elim (Bool-cases (j == k)) [
    | inl hit ↦ rw hit d
    | inr miss ↦ rw miss (
      rw (get-put k j v m) (ground (arith, e.equal_iff k j, e.equal_iff j k)),
      put-IsDistinct k v m d.1,
    )
  ]

pub get-empty {ℓ} : {K V : Type ℓ} ⦃e : Comparable K⦄ (k : K) → get {V = V} k [] ≡ none
unfolding get
get-empty k = refl

pub ruleset map_laws = (get-empty, get-put, get-delete)

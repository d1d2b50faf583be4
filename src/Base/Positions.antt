-- ===== src/Base/Positions.antt =====
-- Elements of a slice by their index.
use Prim.Native.Nat.{ℕ, zero, suc, ◌<◌, ◌≤◌}
use Prim.Native.String.{String}
use mathlib.Core.Path.{◌≡◌, refl, ap, subst}
use mathlib.Core.Bool.{true, false}
use mathlib.Core.Option.{some}
use mathlib.Core.List.{List, [], ◌∷◌, map}
use native.Mathlib.Omega.{arith}
use keychain.Base.Lists.{All, length, get_elem?, take}
use keychain.Base.Order.{str_lt, lt_irrefl, lt_asymm}
use keychain.Base.Sorted.{IsSorted}

-- The slice holds the element.
abbrev pub Holds {ℓ} : {A : Type ℓ} → List A → A → Type ℓ
Holds xs a = (i : ℕ) × (get_elem? xs i ≡ some a)

module _ {ℓ} {A : Type ℓ} where
  pub All-at {κ} :
      (P : A → Type κ) (xs : List A) (i : ℕ) (a : A) → All P xs → get_elem? xs i ≡ some a → P a
  All-at P [] i a h e = cc e
  All-at P (x ∷ xs) zero a h e = subst P (cc e) h.0
  All-at P (x ∷ xs) (suc i) a h e = All-at P xs i a h.1 e

  pub at-length : (xs : List A) (i : ℕ) (a : A) → get_elem? xs i ≡ some a → i < length xs
  at-length [] i a e = cc e
  at-length (x ∷ xs) zero a e = omega arith
  at-length (x ∷ xs) (suc i) a e = let h = at-length xs i a e in omega (arith, h)

  pub length-at : (xs : List A) (i : ℕ) → i < length xs → (a : A) × (get_elem? xs i ≡ some a)
  length-at [] i h = absurd (omega (arith, h))
  length-at (x ∷ xs) zero h = (x, refl)
  length-at (x ∷ xs) (suc i) h = length-at xs i (omega (arith, h))

  pub at-take : (n i : ℕ) (xs : List A) → i < n → get_elem? (take n xs) i ≡ get_elem? xs i
  unfolding take
  at-take zero i xs h = absurd (omega (arith, h))
  at-take (suc n) i [] h = refl
  at-take (suc n) zero (x ∷ xs) h = refl
  at-take (suc n) (suc i) (x ∷ xs) h = at-take n i xs (omega (arith, h))

  pub length-take_le : (n : ℕ) (xs : List A) → n ≤ length xs → length (take n xs) ≡ n
  unfolding take
  length-take_le zero xs h = refl
  length-take_le (suc n) [] h = absurd (omega (arith, h))
  length-take_le (suc n) (x ∷ xs) h = ap suc (length-take_le n xs (omega (arith, h)))

  pub All-take {κ} : (P : A → Type κ) (n : ℕ) (xs : List A) → All P xs → All P (take n xs)
  unfolding take
  All-take P zero xs h = tt
  All-take P (suc n) [] h = tt
  All-take P (suc n) (x ∷ xs) h = (h.0, All-take P n xs h.1)

pub IsSorted-take : (n : ℕ) (ss : List String) → IsSorted ss → IsSorted (take n ss)
unfolding take
IsSorted-take zero ss h = tt
IsSorted-take (suc n) [] h = tt
IsSorted-take (suc n) (s ∷ ss) h =
    (All-take (λ t. str_lt s t ≡ true) n ss h.0, IsSorted-take n ss h.1)

pub IsSorted-at :
    (ss : List String) (i j : ℕ) (s t : String)
    → IsSorted ss
    → i < j
    → get_elem? ss i ≡ some s
    → get_elem? ss j ≡ some t
    → str_lt s t ≡ true
IsSorted-at [] i j s t h lt e e' = cc e
IsSorted-at (x ∷ ss) i zero s t h lt e e' = absurd (omega (arith, lt))
IsSorted-at (x ∷ ss) zero (suc j) s t h lt e e' =
    subst (λ s. str_lt s t ≡ true) (cc e) (All-at (λ t. str_lt x t ≡ true) ss j t h.0 e')
IsSorted-at (x ∷ ss) (suc i) (suc j) s t h lt e e' =
    IsSorted-at ss i j s t h.1 (omega (arith, lt)) e e'

pub map-take :
    {A B : Type 0} (f : A → B) (n : ℕ) (xs : List A) → map f (take n xs) ≡ take n (map f xs)
unfolding take
map-take f zero xs = refl
map-take f (suc n) [] = refl
map-take f (suc n) (x ∷ xs) = ap (λ ys. f x ∷ ys) (map-take f n xs)

pub map-at :
    {A B : Type 0} (f : A → B) (i : ℕ) (xs : List A) (a : A)
    → get_elem? xs i ≡ some a
    → get_elem? (map f xs) i ≡ some (f a)
map-at f i [] a e = cc e
map-at f zero (x ∷ xs) a e = cc e
map-at f (suc i) (x ∷ xs) a e = map-at f i xs a e

-- In a sorted list nothing up to a place comes behind the string there.
pub take-last :
    (m : ℕ) (ss : List String) (t : String)
    → IsSorted ss
    → get_elem? ss m ≡ some t
    → All (λ s. str_lt t s ≡ false) (take (suc m) ss)
unfolding take
take-last m [] t h e = tt
take-last zero (s ∷ ss) t h e = let same : s ≡ t = cc e in (rw same (lt_irrefl t), tt)
take-last (suc m) (s ∷ ss) t h e =
    (lt_asymm s t (All-at (λ u. str_lt s u ≡ true) ss m t h.0 e), take-last m ss t h.1 e)

pub at-map :
    {A B : Type 0} (f : A → B) (i : ℕ) (xs : List A) (b : B)
    → get_elem? (map f xs) i ≡ some b
    → (a : A) × (get_elem? xs i ≡ some a) × (f a ≡ b)
at-map f i [] b e = cc e
at-map f zero (x ∷ xs) b e = (x, refl, cc e)
at-map f (suc i) (x ∷ xs) b e = at-map f i xs b e

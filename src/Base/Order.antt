-- ===== src/Base/Order.antt =====
-- The order of strings. Go compares strings byte by byte, which for UTF-8 is the order of the code
-- points, and so that of the native texts.
use Prim.Native.Nat.{ℕ, Ordering, compare as compare_ℕ}
use Prim.Native.Char.{code}
use Prim.Native.String.compare
use Prim.Native.String.{String, [], ◌∷◌, compare, then}
use mathlib.Core.Path.{◌≡◌, refl, sym, ap, ◌∙◌}
use mathlib.Core.Logic.{◌⊎◌, inl, inr}
use mathlib.Core.Bool.{Bool, true, false}
use native.Mathlib.Omega.{arith}
use text.Mathlib.Text.{is_lt}
use keychain.Base.Tests.{Bool-cases}
use text.Mathlib.TextEquality.{path_by_compare}
use text.Mathlib.TextPositions.{compare_refl}

-- s < t
unfoldable pub str_lt : String → String → Bool
str_lt s t = is_lt (compare s t)

flip : Ordering → Ordering
flip Ordering.lt = Ordering.gt
flip Ordering.eq = Ordering.eq
flip Ordering.gt = Ordering.lt

then-flip : (a b : ℕ) (o : Ordering) → then (compare_ℕ b a) (flip o) ≡ flip (then (compare_ℕ a b) o)
unfolding flip
then-flip a b o = ground arith

compare-flip : (s t : String) → compare t s ≡ flip (compare s t)
unfolding flip
compare-flip [] [] = rw compare.nil-nil
compare-flip [] (d ∷ t) = rw (compare.nil-cons, compare.cons-nil)
compare-flip (c ∷ s) [] = rw (compare.nil-cons, compare.cons-nil)
compare-flip (c ∷ s) (d ∷ t) =
    compare.cons-cons d c t s
    ∙ ap (then (compare_ℕ (code d) (code c))) (compare-flip s t)
    ∙ then-flip (code c) (code d) (compare s t)
    ∙ ap flip (sym (compare.cons-cons c d s t))

pub lt_irrefl : (s : String) → str_lt s s ≡ false
unfolding str_lt
lt_irrefl s = rw (compare_refl s)

then_lt_trans :
    (a b c : ℕ) (o p q : Ordering)
    → (is_lt o ≡ true → is_lt p ≡ true → is_lt q ≡ true)
    → is_lt (then (compare_ℕ a b) o) ≡ true
    → is_lt (then (compare_ℕ b c) p) ≡ true
    → is_lt (then (compare_ℕ a c) q) ≡ true
then_lt_trans a b c o p q h x y = ground arith

pub lt_trans : (s t u : String) → str_lt s t ≡ true → str_lt t u ≡ true → str_lt s u ≡ true
unfolding str_lt
lt_trans [] [] u h k = k
lt_trans [] (d ∷ t) [] h k = cc (ap is_lt (compare.cons-nil d t))
lt_trans [] (d ∷ t) (e ∷ u) h k = rw (compare.nil-cons e u)
lt_trans (c ∷ s) [] u h k = cc (ap is_lt (compare.cons-nil c s))
lt_trans (c ∷ s) (d ∷ t) [] h k = cc (ap is_lt (compare.cons-nil d t))
lt_trans (c ∷ s) (d ∷ t) (e ∷ u) h k = rw (compare.cons-cons c e s u) (
    then_lt_trans (code c) (code d) (code e) (compare s t) (compare t u) (compare s u)
      (lt_trans s t u) (rw (compare.cons-cons c d s t) at h) (rw (compare.cons-cons d e t u) at k))

total_by :
    (s t : String) (o : Ordering)
    → compare s t ≡ o
    → (s ≡ t) ⊎ (str_lt s t ≡ true) ⊎ (str_lt t s ≡ true)
unfolding str_lt flip
total_by s t Ordering.lt e = inr (inl (ap is_lt e))
total_by s t Ordering.eq e = inl (path_by_compare s t e)
total_by s t Ordering.gt e = inr (inr (ap is_lt (compare-flip s t ∙ ap flip e)))

-- Different strings are ordered one way or the other.
pub lt_total : (s t : String) → (s ≡ t) ⊎ (str_lt s t ≡ true) ⊎ (str_lt t s ≡ true)
lt_total s t = total_by s t (compare s t) refl

pub lt_asymm : (s t : String) → str_lt s t ≡ true → str_lt t s ≡ false
lt_asymm s t h = elim (Bool-cases (str_lt t s)) [
  | inl k ↦ cc (lt_trans s t s h k, lt_irrefl s)
  | inr k ↦ k
]

-- ===== src/Base/Extent.antt =====
-- A sorted list is determined by the strings that it holds, and is cut in two by any string.
use Prim.Native.Nat.{zero, suc}
use Prim.Native.String.{String}
use mathlib.Core.Path.{◌≡◌, refl, sym, ap, subst}
use mathlib.Core.Logic.{◌⊎◌, inl, inr}
use mathlib.Core.Bool.{true, false}
use mathlib.Core.List.{List, [], ◌∷◌, ◌++◌}
use keychain.Base.Tests.{Bool-cases}
use keychain.Base.Lists.{All, All-map}
use keychain.Base.Order.{str_lt, lt_irrefl, lt_trans, lt_asymm}
use keychain.Base.Sorted.{IsSorted, Before}
use keychain.Base.Positions.{Holds, All-at}

-- Every string of the first list stands in the second.
abbrev pub Within : List String → List String → Type 0
Within ss ts = (s : String) → Holds ss s → Holds ts s

-- A string of a list is its head or stands in its tail.
Holds-cases : (t : String) (ts : List String) (s : String) → Holds (t ∷ ts) s → (t ≡ s) ⊎ Holds ts s
Holds-cases t ts s (zero, e) = inl (cc e)
Holds-cases t ts s (suc i, e) = inr (i, e)

Within-tail :
    (s : String) (ss ts : List String) → Before s ss → Within (s ∷ ss) (s ∷ ts) → Within ss ts
Within-tail s ss ts before w u (i, e) = elim (Holds-cases s ts u (w u (suc i, e))) [
  | inl same ↦ absurd (cc (All-at (λ t. str_lt s t ≡ true) ss i u before e, same, lt_irrefl s))
  | inr h ↦ h
]

head-least :
    (s t : String) (ss ts : List String)
    → Before t ts
    → Within (s ∷ ss) (t ∷ ts)
    → (t ≡ s) ⊎ (str_lt t s ≡ true)
head-least s t ss ts before w = elim (Holds-cases t ts s (w s (zero, refl))) [
  | inl same ↦ inl same
  | inr (i, e) ↦ inr (All-at (λ u. str_lt t u ≡ true) ts i s before e)
]

pub IsSorted-unique :
    (ss ts : List String) → IsSorted ss → IsSorted ts → Within ss ts → Within ts ss → ss ≡ ts
IsSorted-unique [] [] h k w w' = refl
IsSorted-unique [] (t ∷ ts) h k w w' = let (i, e) = w' t (zero, refl) in cc e
IsSorted-unique (s ∷ ss) [] h k w w' = let (i, e) = w s (zero, refl) in cc e
IsSorted-unique (s ∷ ss) (t ∷ ts) h k w w' = elim (head-least s t ss ts k.0 w) [
  | inl same ↦
      let within = subst (λ u. Within (s ∷ ss) (u ∷ ts)) same w in
      let within' = subst (λ u. Within (u ∷ ts) (s ∷ ss)) same w' in
      let before = subst (λ u. Before u ts) same k.0 in
      let tails =
        IsSorted-unique ss ts h.1 k.1 (Within-tail s ss ts h.0 within)
          (Within-tail s ts ss before within') in
      λ i. sym same i ∷ tails i
  | inr less ↦ elim (head-least t s ts ss h.0 w') [
    | inl same ↦ absurd (cc (less, same, lt_irrefl s))
    | inr more ↦ absurd (cc (lt_asymm t s less, more))
  ]
]

pub All-append :
    (P : String → Type 0) (xs ys : List String) → All P (xs ++ ys) → All P xs × All P ys
All-append P [] ys h = (tt, h)
All-append P (x ∷ xs) ys h = let (a, b) = All-append P xs ys h.1 in ((h.0, a), b)

pub IsSorted-append : (xs ys : List String) → IsSorted (xs ++ ys) → IsSorted xs × IsSorted ys
IsSorted-append [] ys h = (tt, h)
IsSorted-append (x ∷ xs) ys h =
    let (a, b) = IsSorted-append xs ys h.1 in
    (((All-append (λ t. str_lt x t ≡ true) xs ys h.0).0, a), b)

pub Holds-append :
    {A : Type 0} (xs ys : List A) (a : A) → Holds (xs ++ ys) a → Holds xs a ⊎ Holds ys a
Holds-append [] ys a h = inr h
Holds-append (x ∷ xs) ys a (zero, e) = inl (0, e)
Holds-append (x ∷ xs) ys a (suc i, e) = elim (Holds-append xs ys a (i, e)) [
  | inl (j, f) ↦ inl (suc j, f)
  | inr h ↦ inr h
]

pub Holds-left : {A : Type 0} (xs ys : List A) (a : A) → Holds xs a → Holds (xs ++ ys) a
Holds-left [] ys a (i, e) = cc e
Holds-left (x ∷ xs) ys a (zero, e) = (0, e)
Holds-left (x ∷ xs) ys a (suc i, e) = let (j, f) = Holds-left xs ys a (i, e) in (suc j, f)

pub Holds-right : {A : Type 0} (xs ys : List A) (a : A) → Holds ys a → Holds (xs ++ ys) a
Holds-right [] ys a h = h
Holds-right (x ∷ xs) ys a h = let (j, f) = Holds-right xs ys a h in (suc j, f)

pub All-zip {ℓ} :
    {A : Type ℓ} {P Q R : A → Type ℓ} (xs : List A)
    → ((x : A) → P x → Q x → R x)
    → All P xs
    → All Q xs
    → All R xs
All-zip [] f p q = tt
All-zip (x ∷ xs) f p q = (f x p.0 q.0, All-zip xs f p.1 q.1)

-- The strings up to one, and those behind it.
pub record Cut (token : String) (ss : List String) : Type 0 where
  pub pre : List String
  pub post : List String
  pub whole : ss ≡ pre ++ post
  pub upto : All (λ s. str_lt token s ≡ false) pre
  pub behind : All (λ s. str_lt token s ≡ true) post

pub cut : (token : String) (ss : List String) → IsSorted ss → Cut token ss
cut token [] h = record { pre = []; post = []; whole = refl; upto = tt; behind = tt }
cut token (s ∷ ss) h = elim (Bool-cases (str_lt token s)) [
  | inl lt ↦ record {
    pre = [];
    post = s ∷ ss;
    whole = refl;
    upto = tt;
    behind = (lt, All-map ss (λ t less. lt_trans token s t lt less) h.0);
  }
  | inr ge ↦
      let rest = cut token ss h.1 in
      record {
        pre = s ∷ rest.pre;
        post = rest.post;
        whole = ap (λ ts. s ∷ ts) rest.whole;
        upto = (ge, rest.upto);
        behind = rest.behind;
      }
]

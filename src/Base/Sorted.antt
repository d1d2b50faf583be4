-- ===== src/Base/Sorted.antt =====
-- Strictly sorted lists of strings: sorting a list without repetitions makes one, and a search in
-- it finds its place.
use mathlib.Core.List.{Perm}
use mathlib.Core.List.Perm
use keychain.Base.{
  suc, String, ◌≡◌, ◌≢◌, refl, ap, true, false, some, List, [], ◌∷◌, ◌++◌, arith, inl, inr,
  Bool-cases,
}
use keychain.Base.Lists.{All, length, get_elem?, insert_sorted, sort_strings, search_strings}
use keychain.Base.Order.{str_lt, lt_irrefl, lt_trans, lt_total, lt_asymm}

-- `s` comes before each of the strings.
abbrev pub Before : String → List String → Type 0
Before s ts = All (λ t. str_lt s t ≡ true) ts

-- Each string comes before all later ones.
abbrev pub IsSorted : List String → Type 0
IsSorted [] = Unit
IsSorted (s ∷ ss) = Before s ss × IsSorted ss

-- No string occurs twice.
abbrev pub Differ : List String → Type 0
Differ [] = Unit
Differ (s ∷ ss) = All (λ t. s ≢ t) ss × Differ ss

Before-trans : (s t : String) (us : List String) → str_lt s t ≡ true → Before t us → Before s us
Before-trans s t [] h b = tt
Before-trans s t (u ∷ us) h b = (lt_trans s t u h b.0, Before-trans s t us h b.1)

insert_sorted-Before :
    (s t : String) (us : List String)
    → str_lt s t ≡ true
    → Before s us
    → Before s (insert_sorted t us)
unfolding insert_sorted
insert_sorted-Before s t [] h b = (h, tt)
insert_sorted-Before s t (u ∷ us) h b = elim (Bool-cases (str_lt u t)) [
  | inl lt ↦ rw lt (b.0, insert_sorted-Before s t us h b.1)
  | inr ge ↦ rw ge (h, b)
]

insert_sorted-IsSorted :
    (s : String) (ts : List String)
    → IsSorted ts
    → All (λ t. s ≢ t) ts
    → IsSorted (insert_sorted s ts)
unfolding insert_sorted
insert_sorted-IsSorted s [] h d = (tt, tt)
insert_sorted-IsSorted s (t ∷ ts) h d = elim (lt_total s t) [
  | inl same ↦ absurd (d.0 same)
  | inr (inl lt) ↦ rw (lt_asymm s t lt) ((lt, Before-trans s t ts lt h.0), h)
  | inr (inr gt) ↦ rw gt (insert_sorted-Before t s ts gt h.0, insert_sorted-IsSorted s ts h.1 d.1)
]

insert_sorted-All {ℓ} :
    (P : String → Type ℓ) (s : String) (ts : List String)
    → P s
    → All P ts
    → All P (insert_sorted s ts)
unfolding insert_sorted
insert_sorted-All P s [] h a = (h, tt)
insert_sorted-All P s (t ∷ ts) h a = elim (Bool-cases (str_lt t s)) [
  | inl lt ↦ rw lt (a.0, insert_sorted-All P s ts h a.1)
  | inr ge ↦ rw ge (h, a)
]

pub sort_strings-All {ℓ} :
    (P : String → Type ℓ) (ss : List String) → All P ss → All P (sort_strings ss)
unfolding sort_strings
sort_strings-All P [] a = tt
sort_strings-All P (s ∷ ss) a =
    insert_sorted-All P s (sort_strings ss) a.0 (sort_strings-All P ss a.1)

pub sort_strings-IsSorted : (ss : List String) → Differ ss → IsSorted (sort_strings ss)
unfolding sort_strings
sort_strings-IsSorted [] d = tt
sort_strings-IsSorted (s ∷ ss) d =
    insert_sorted-IsSorted s (sort_strings ss) (sort_strings-IsSorted ss d.1)
      (sort_strings-All (λ t. s ≢ t) ss d.0)

insert_sorted-perm : (s : String) (ts : List String) → Perm (insert_sorted s ts) (s ∷ ts)
unfolding insert_sorted
insert_sorted-perm s [] = Perm.refl (s ∷ [])
insert_sorted-perm s (t ∷ ts) = elim (Bool-cases (str_lt t s)) [
  | inl lt ↦ rw lt (Perm.trans (Perm.cons t (insert_sorted-perm s ts)) (Perm.swap s t ts))
  | inr ge ↦ rw ge (Perm.refl (s ∷ t ∷ ts))
]

pub sort_strings-perm : (ss : List String) → Perm (sort_strings ss) ss
unfolding sort_strings
sort_strings-perm [] = Perm.refl []
sort_strings-perm (s ∷ ss) =
    Perm.trans (insert_sorted-perm s (sort_strings ss)) (Perm.cons s (sort_strings-perm ss))

-- The search for a string that stands in a sorted list finds where it stands.
pub search-append :
    (pre : List String) (s : String) (post : List String)
    → IsSorted (pre ++ s ∷ post)
    → search_strings (pre ++ s ∷ post) s ≡ length pre
unfolding search_strings
search-append [] s post h = rw (lt_irrefl s)
search-append (p ∷ pre) s post h =
    rw (Before-at p pre s post h.0) (ap suc (search-append pre s post h.1))
  where
    Before-at :
        (p : String) (pre : List String) (s : String) (post : List String)
        → Before p (pre ++ s ∷ post)
        → str_lt p s ≡ true
    Before-at p [] s post b = b.0
    Before-at p (q ∷ pre) s post b = Before-at p pre s post b.1

pub get_elem?-append {ℓ} :
    {A : Type ℓ} (pre : List A) (a : A) (post : List A)
    → get_elem? (pre ++ a ∷ post) (length pre) ≡ some a
get_elem?-append [] a post = refl
get_elem?-append (p ∷ pre) a post = get_elem?-append pre a post

length-insert_sorted :
    (s : String) (ts : List String) → length (insert_sorted s ts) ≡ suc (length ts)
unfolding insert_sorted
length-insert_sorted s [] = refl
length-insert_sorted s (t ∷ ts) = ground (arith, length-insert_sorted s ts)

pub length-sort : (ss : List String) → length (sort_strings ss) ≡ length ss
unfolding sort_strings
length-sort [] = refl
length-sort (s ∷ ss) = omega (arith, length-insert_sorted s (sort_strings ss), length-sort ss)

-- In a sorted list nothing comes behind the last string.
pub IsSorted-last :
    (pre : List String) (t : String)
    → IsSorted (pre ++ t ∷ [])
    → All (λ s. str_lt t s ≡ false) (pre ++ t ∷ [])
IsSorted-last [] t h = (lt_irrefl t, tt)
IsSorted-last (p ∷ pre) t h = (lt_asymm p t (Before-end pre h.0), IsSorted-last pre t h.1)
  where
    Before-end : (pre : List String) → Before p (pre ++ t ∷ []) → str_lt p t ≡ true
    Before-end [] b = b.0
    Before-end (q ∷ pre) b = Before-end pre b.1

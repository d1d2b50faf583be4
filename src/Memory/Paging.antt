-- ===== src/Memory/Paging.antt =====
-- One page of `ListKeys` over the sorted ids, and the walk over all pages.
use mathlib.Core.List.{append_assoc, append-nil}
use keychain.Base.{
  ℕ, zero, suc, ◌+◌, ◌-◌, ◌≤◌, String, String-Comparable, ◌≡◌, refl, ◌∙◌, ap, subst, true, ◌&&◌,
  some, List, [], ◌∷◌, ◌++◌, arith, leb,
}
use keychain.Base.Int.{ℤ, pos, negsuc}
use keychain.Base.Lists.{length, length-append, get_elem?, slice, take, drop}
use keychain.Base.Sorted.{get_elem?-append}
use keychain.Memory.Page.{page, page_between, page_start, page_end, page_limit, next_token}

take-append {ℓ} : {A : Type ℓ} (mid post : List A) → take (length mid) (mid ++ post) ≡ mid
unfolding take
take-append [] post = refl
take-append (x ∷ mid) post = ap (◌∷◌ x) (take-append mid post)

drop-append {ℓ} : {A : Type ℓ} (pre post : List A) → drop (length pre) (pre ++ post) ≡ post
unfolding drop
drop-append [] post = refl
drop-append (x ∷ pre) post = drop-append pre post

slice-append {ℓ} :
    {A : Type ℓ} (pre mid post : List A) (end : ℕ)
    → end ≡ length pre + length mid
    → slice (pre ++ (mid ++ post)) (length pre) end ≡ some mid
slice-append pre mid post end e =
    rw in_bounds (rw (drop-append pre (mid ++ post), span) (ap some (take-append mid post)))
  where
    in_bounds : (leb (length pre) end && leb end (length (pre ++ (mid ++ post)))) ≡ true
    in_bounds = ground (arith, e, length-append pre (mid ++ post), length-append mid post)

    span : end - length pre ≡ length mid
    span = omega (arith, e)

module _ (ids : List String) (token : String) (size : ℤ) where
  page_by :
      (start end : ℕ) (out : List String) (next : String)
      → page_start ids token ≡ start
      → page_end ids start (page_limit size) ≡ end
      → slice ids start end ≡ some out
      → next_token ids end ≡ some next
      → page ids token size ≡ some (out, next)
  unfolding page page_between
  page_by start end out next p q r s =
      ap (λ x. page_between ids x (page_end ids x (page_limit size))) p
      ∙ ap (page_between ids start) q
      ∙ rw (r, page_between) (rw (s, page_between))

pub page_limit-pos : (size : ℤ) → (n : ℕ) × (page_limit size ≡ suc n)
unfolding page_limit
page_limit-pos (pos zero) = (49, refl)
page_limit-pos (pos (suc n)) = (n, refl)
page_limit-pos (negsuc n) = (49, refl)

-- The page is the last.
pub page_last :
    (pre rest : List String) (token : String) (size : ℤ)
    → page_start (pre ++ rest) token ≡ length pre
    → length rest ≤ page_limit size
    → page (pre ++ rest) token size ≡ some (rest, "")
unfolding page_end next_token
page_last pre rest token size start short =
    page_by (pre ++ rest) token size (length pre) (length (pre ++ rest)) rest "" start ends cut
      final
  where
    ends : page_end (pre ++ rest) (length pre) (page_limit size) ≡ length (pre ++ rest)
    ends = ground (arith, length-append pre rest)

    cut : slice (pre ++ rest) (length pre) (length (pre ++ rest)) ≡ some rest
    cut =
        subst (λ x. slice (pre ++ x) (length pre) (length (pre ++ rest)) ≡ some rest)
          (append-nil rest)
          (slice-append pre rest [] (length (pre ++ rest)) (length-append pre rest))

    final : next_token (pre ++ rest) (length (pre ++ rest)) ≡ some ""
    final = ground arith

-- There is a next page: its token is the last id of this one.
pub page_more :
    (pre q : List String) (t u : String) (post : List String) (token : String) (size : ℤ)
    → page_start (pre ++ (q ++ t ∷ u ∷ post)) token ≡ length pre
    → suc (length q) ≡ page_limit size
    → page (pre ++ (q ++ t ∷ u ∷ post)) token size ≡ some (q ++ t ∷ [], t)
unfolding page_end next_token
page_more pre q t u post token size start full =
    page_by ids token size (length pre) end (q ++ t ∷ []) t start ends cut final
  where
    ids : List String
    ids = pre ++ (q ++ t ∷ u ∷ post)

    end : ℕ
    end = suc (length pre + length q)

    total : length ids ≡ length pre + (length q + suc (suc (length post)))
    total = omega (arith, length-append pre (q ++ t ∷ u ∷ post), length-append q (t ∷ u ∷ post))

    ends : page_end ids (length pre) (page_limit size) ≡ end
    ends = ground (arith, total, full)

    cut : slice ids (length pre) end ≡ some (q ++ t ∷ [])
    cut =
        subst (λ x. slice (pre ++ x) (length pre) end ≡ some (q ++ t ∷ []))
          (append_assoc q (t ∷ []) (u ∷ post))
          (slice-append pre (q ++ t ∷ []) (u ∷ post) end (omega (arith, length-append q (t ∷ []))))

    at_end : get_elem? ids (length pre + length q) ≡ some t
    at_end =
        subst (λ n. get_elem? ids n ≡ some t) (length-append pre q)
          (subst (λ x. get_elem? x (length (pre ++ q)) ≡ some t) (append_assoc pre q (t ∷ u ∷ post))
            (get_elem?-append (pre ++ q) t (u ∷ post)))

    final : next_token ids end ≡ some t
    final = ground (arith, total, at_end)

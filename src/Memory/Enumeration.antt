-- ===== src/Memory/Enumeration.antt =====
-- The selected keys of a Go map of keys, in order.
use keychain.Base.{◌≡◌, sym, ap, ◌∙◌, String, String-Comparable, inl}
use mathlib.Core.List.Perm
use keychain.Base.Lists.{All-map, sort_strings}
use keychain.Base.Map.{Map, get, IsDistinct}
use keychain.Base.Sorted.{sort_strings-IsSorted, sort_strings-All, sort_strings-perm}
use keychain.Store.{Key, ListKeysOpts}
use keychain.Store.Contract.{View}
use keychain.Store.Enumeration.{Enumerates}
use keychain.Memory.Page.{matching_ids}
use keychain.Memory.Listing.{
  matching_ids-All, matching_ids-Differ, matching_ids-Mem, matches-Selected, Selected-matches,
}
use keychain.Memory.Split.{Mem-Holds}

-- What ListKeys enumerates of a finite map of keys, from the empty token on.
pub map-Enumerates :
    (v : View) (m : Map String Key) (opts : ListKeysOpts)
    → IsDistinct m
    → v.keys ≡ (λ id. get id m)
    → opts.page_token ≡ ""
    → Enumerates v opts (sort_strings (matching_ids opts m))
map-Enumerates v m opts distinct same first = record {
  sorted = sort_strings-IsSorted (matching_ids opts m) (matching_ids-Differ opts m distinct);
  held = sort_strings-All _ (matching_ids opts m) (
      All-map (matching_ids opts m)
        (λ id (k, e, h). (k, ap (λ f. f id) same ∙ e, matches-Selected opts k h, inl first))
        (matching_ids-All opts m distinct));
  every = λ id k e sel behind. Mem-Holds id (sort_strings (matching_ids opts m)) (
      (Perm.mem_iff (sort_strings-perm (matching_ids opts m))).1 (
        matching_ids-Mem opts m id k (sym (ap (λ f. f id) same) ∙ e)
          (Selected-matches opts k sel)));
}

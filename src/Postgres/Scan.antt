-- ===== src/Postgres/Scan.antt =====
-- What the loop of `ListKeys` of postgres.go makes of its rows, and how it cuts the page.
use keychain.Base.{
  ℕ, zero, suc, ◌-◌, ◌≤◌, String-Comparable, ◌≡◌, ◌⊎◌, inl, inr, refl, sym, ap, subst, ◌∙◌, Option,
  some, List, [], ◌∷◌, map, ok, arith, Bool-cases, ltb,
}
use keychain.Base.Int.{ℤ, pos, negsuc}
use keychain.Base.Lists.{All, length, get_elem?, take}
use keychain.Base.Positions.{length-at}
use keychain.Store.{Key, ListKeysOpts, LimitRef}
use keychain.Store.Page.{Selected, IsBehind, limit, ids}
use keychain.Postgres.Codec.{Json, KeyRow, key_of, key_with}
use keychain.Postgres.Engine.{Columns, Tables}
use keychain.Postgres.Query.{SelectedRow}
use keychain.Postgres.Reads.{Parsed, key_of-parsed, read_key-row, key_with-id}
use keychain.Postgres.View.{view_tables}
use keychain.Postgres.{scan_rows, cut_page, page_limit, keep}

pub page_limit-limit : (n : ℤ) → page_limit n ≡ limit n
unfolding page_limit
page_limit-limit (pos zero) = refl
page_limit-limit (pos (suc n)) = refl
page_limit-limit (negsuc n) = refl

pub some_unique : {A : Type 0} {o : Option A} {a b : A} → o ≡ some a → o ≡ some b → a ≡ b
some_unique e e' = cc (e, e')

pub pred_suc : (m : ℕ) → suc m - 1 ≡ m
pred_suc m = omega arith

-- The row reads as the key.
abbrev pub Read : Json → KeyRow → Key → Type 0
Read json r k =
    (refs : List LimitRef) × (json.unmarshal_refs r.limit_refs ≡ ok refs)
    × (key_with json r refs ≡ k)

abbrev pub Reads : Json → List KeyRow → List Key → Type 0
Reads json [] ks = ks ≡ []
Reads json (r ∷ rs) [] = ⊥
Reads json (r ∷ rs) (k ∷ ks) = Read json r k × Reads json rs ks

module _ (json : Json) (c : Columns) where
  pub Read-key_of : (r : KeyRow) (k : Key) → Read json r k → key_of json r ≡ ok k
  Read-key_of r k (refs, p, e) = key_of-parsed json c r refs p ∙ ap ok e

  pub scan_rows-Reads :
      (rs : List KeyRow) (ks : List Key) → Reads json rs ks → scan_rows json (map ok rs) ≡ ok ks
  unfolding scan_rows
  scan_rows-Reads [] ks h = ap ok (sym h)
  scan_rows-Reads (r ∷ rs) [] h = absurd h
  scan_rows-Reads (r ∷ rs) (k ∷ ks) h =
      rw (Read-key_of r k h.0, scan_rows) (ap (keep k) (scan_rows-Reads rs ks h.1))

  pub Reads-length : (rs : List KeyRow) (ks : List Key) → Reads json rs ks → length ks ≡ length rs
  Reads-length [] ks h = ap length h
  Reads-length (r ∷ rs) [] h = absurd h
  Reads-length (r ∷ rs) (k ∷ ks) h = ap suc (Reads-length rs ks h.1)

  pub Reads-ids :
      (rs : List KeyRow) (ks : List Key) → Reads json rs ks → ids ks ≡ map (λ r. r.key_id) rs
  Reads-ids [] ks h = ap ids h
  Reads-ids (r ∷ rs) [] h = absurd h
  Reads-ids (r ∷ rs) (k ∷ ks) h =
      let (refs, _, e) = h.0 in
      let same = sym (ap (λ k. k.key_id) e) ∙ key_with-id json c r refs in
      λ i. same i ∷ Reads-ids rs ks h.1 i

  pub Reads-at :
      (rs : List KeyRow) (ks : List Key) (i : ℕ) (r : KeyRow)
      → Reads json rs ks
      → get_elem? rs i ≡ some r
      → (k : Key) × (get_elem? ks i ≡ some k) × Read json r k
  Reads-at [] ks i r h e = cc e
  Reads-at (q ∷ rs) [] i r h e = absurd h
  Reads-at (q ∷ rs) (k ∷ ks) zero r h e = (k, refl, subst (λ q. Read json q k) (cc e) h.0)
  Reads-at (q ∷ rs) (k ∷ ks) (suc i) r h e = Reads-at rs ks i r h.1 e

  module _ (t : Tables) (parsed : Parsed json t) (opts : ListKeysOpts) where
    abbrev pub RowHeld : KeyRow → Type 0
    RowHeld r = (t.keys r.key_id ≡ some r) × SelectedRow opts r × IsBehind opts.page_token r.key_id

    abbrev pub KeyHeld : Key → Type 0
    KeyHeld k =
        ((view_tables json c t).keys k.key_id ≡ some k)
        × Selected opts k
        × IsBehind opts.page_token k.key_id

    pub Read-KeyHeld : (r : KeyRow) (k : Key) → Read json r k → RowHeld r → KeyHeld k
    unfolding key_with
    Read-KeyHeld r k (refs, p, e) h =
        subst KeyHeld e (read_key-row json c t r.key_id r refs h.0 p, h.1, h.2)

    -- Every row that the query gives can be read.
    pub rows-Reads :
        (rs : List KeyRow) → All RowHeld rs → (ks : List Key) × Reads json rs ks × All KeyHeld ks
    rows-Reads [] h = ([], refl, tt)
    rows-Reads (r ∷ rs) h =
        let (refs, p) = parsed r.key_id r h.0.0 in
        let k = key_with json r refs in
        let (ks, reads, held) = rows-Reads rs h.1 in
        (k ∷ ks, ((refs, p, refl), reads), (Read-KeyHeld r k (refs, p, refl) h.0, held))

module _ (json : Json) where
  -- What a page holds of the keys that were fetched, one more than the limit at most.
  pub cut_page-cases :
      (size : ℕ) (out : List Key)
      → length out ≤ suc (suc size)
      → ((length out ≤ suc size)
          × (cut_page (suc size) out ≡ ok (record { keys = out; next_page_token = "" })))
        ⊎ ((length out ≡ suc (suc size))
            × (k : Key) × (get_elem? out (suc size - 1) ≡ some k)
            × (cut_page (suc size) out
                ≡ ok (record { keys = take (suc size) out; next_page_token = k.key_id })))
  unfolding cut_page
  cut_page-cases size out h = elim (Bool-cases (ltb (suc size) (length out))) [
    | inl more ↦
        let (k, e) = length-at out (suc size - 1) (ground (arith, more)) in
        inr (ground (arith, more, h), k, e, rw (more, cut_page) (rw (e, cut_page) refl))
    | inr last ↦ inl (ground (arith, last), rw (last, cut_page) refl)
  ]

-- ===== src/Postgres/Listing.antt =====
-- A page of `ListKeys` of postgres.go, over the rows that the query gives.
use keychain.Base.{
  ℕ, suc, ◌+◌, ◌≤◌, ◌<◌, String, String-Comparable, ◌≡◌, ◌≢◌, ◌⊎◌, inl, inr, sym, ap, subst, ◌∙◌,
  true, false, refl, none, some, List, ok, arith, Bool-cases, ltb,
}
use keychain.Base.Lists.{All, length, get_elem?, take}
use keychain.Base.Positions.{
  Holds, All-at, at-length, length-at, at-take, length-take_le, All-take, IsSorted-take,
  IsSorted-at, map-take, map-at, take-last,
}
use keychain.Base.Sorted.{IsSorted}
use keychain.Base.Order.{str_lt}
use keychain.Store.{Key, ListKeysOpts, ListKeysResult}
use keychain.Store.Contract.{View}
use keychain.Store.Page.{limit-pos, IsPage, Selected, IsBehind, limit, ids}
use keychain.Postgres.Codec.{Json, key_with}
use keychain.Postgres.Sql.{Pool}
use keychain.Postgres.Engine.{Columns, Tables, Engine}
use keychain.Postgres.Query.{Answered}
use keychain.Postgres.Reads.{Parsed, key_with-id}
use keychain.Postgres.View.{view_tables, read_key-some}
use keychain.Postgres.{cut_page, list_keys, listed, iterated, respond}
use keychain.Postgres.Scan.{
  page_limit-limit, some_unique, pred_suc, Reads, scan_rows-Reads, Reads-length, Reads-ids,
  Reads-at, KeyHeld, rows-Reads, cut_page-cases,
}

module _ {D : Type 0} {tables : D → Tables} {Sound : D → Type 0} (json : Json) {c : Columns}
    {pool : Pool D} (law : Engine tables Sound c pool) (d : D) (s : Sound d)
    (parsed : Parsed json (tables d)) (opts : ListKeysOpts) where
  abbrev keys_view : View
  keys_view = view_tables json c (tables d)

  labelled : (id : String) (k : Key) → keys_view.keys id ≡ some k → k.key_id ≡ id
  labelled id k e =
      let (r, er, refs, p, q) = read_key-some json c ((tables d).keys id) k e in
      sym (sym (key_with-id json c r refs) ∙ ap (λ k. k.key_id) q) ∙ law.key_key d s id r er

  module _ (a : Answered tables pool d opts (limit opts.page_size + 1)) where
    abbrev fetched_keys : List Key
    fetched_keys = (rows-Reads json c (tables d) parsed opts a.rows a.selected).0

    reads : Reads json a.rows fetched_keys
    reads = (rows-Reads json c (tables d) parsed opts a.rows a.selected).1

    run : list_keys json pool opts d ≡ (cut_page (limit opts.page_size) fetched_keys, d)
    unfolding list_keys listed
    run =
        ap
          (λ n.
            respond (listed json n)
              (pool.select_page opts.api_id opts.owner_principal_id opts.page_token (n + 1)) d)
          (page_limit-limit opts.page_size)
        ∙ ap (λ m. (listed json (limit opts.page_size) m.0, m.1)) a.answer
        ∙ ap (λ o. (iterated json none (limit opts.page_size) o, d))
            (scan_rows-Reads json c a.rows fetched_keys reads)

    at-row : (i : ℕ) (t : Key) → get_elem? fetched_keys i ≡ some t → i < length a.rows
    at-row i t at =
        let h = at-length fetched_keys i t at in
        omega (arith, h, Reads-length json c a.rows fetched_keys reads)

    -- A selected key behind the token was fetched, or as many keys were fetched as asked for, all with
    -- lesser ids.
    fetched :
        (id : String) (k : Key)
        → keys_view.keys id ≡ some k
        → Selected opts k
        → IsBehind opts.page_token id
        → Holds fetched_keys k
          ⊎ ((length fetched_keys ≡ limit opts.page_size + 1)
              × ((i : ℕ) (t : Key) → get_elem? fetched_keys i ≡ some t → str_lt t.key_id id ≡ true))
    unfolding key_with
    fetched id k e sel behind =
        let (r, er, refs, p, q) = read_key-some json c ((tables d).keys id) k e in
        elim (a.complete id r er (subst (Selected opts) (sym q) sel) behind) [
          | inl (i, at) ↦
              let (k', at', (refs', p', q')) = Reads-at json c a.rows fetched_keys i r reads at in
              inl (i, at' ∙ ap some (sym q' ∙ ap (key_with json r) (cc (p, p')) ∙ q))
          | inr (full, less) ↦ inr (
            Reads-length json c a.rows fetched_keys reads ∙ full,
            λ i t at.
                let (r', er') = length-at a.rows i (at-row i t at) in
                let (t', at', (refs', p', q')) =
                  Reads-at json c a.rows fetched_keys i r' reads er' in
                subst (λ n. str_lt n id ≡ true)
                  (sym (key_with-id json c r' refs') ∙ ap (λ k. k.key_id) (q' ∙ some_unique at' at))
                  (All-at (λ q. str_lt q.key_id id ≡ true) a.rows i r' less er'),
          )
        ]

    fetched_bounded : length fetched_keys ≤ limit opts.page_size + 1
    fetched_bounded = omega (arith, Reads-length json c a.rows fetched_keys reads, a.bounded)

    fetched-IsSorted : IsSorted (ids fetched_keys)
    fetched-IsSorted = subst IsSorted (sym (Reads-ids json c a.rows fetched_keys reads)) a.ordered

    held : All (KeyHeld json c (tables d) parsed opts) fetched_keys
    held = (rows-Reads json c (tables d) parsed opts a.rows a.selected).2

    -- Nothing is left behind the page.
    last-IsPage :
        length fetched_keys ≤ limit opts.page_size
        → IsPage keys_view opts (record { keys = fetched_keys; next_page_token = "" })
    last-IsPage short = record {
      held = held;
      ordered = fetched-IsSorted;
      bounded = short;
      complete = λ id k e sel behind. elim (fetched id k e sel behind) [
        | inl h ↦ inl h
        | inr (full, _) ↦ absurd (omega (arith, full, short))
      ];
      ends = inl refl;
    }

    cut-IsPage :
        (m : ℕ) (t : Key)
        → limit opts.page_size ≡ suc m
        → length fetched_keys ≡ suc (suc m)
        → get_elem? fetched_keys m ≡ some t
        → t.key_id ≢ ""
        → IsPage keys_view opts
            (record { keys = take (suc m) fetched_keys; next_page_token = t.key_id })
    cut-IsPage m t size full at named = record {
      held = All-take (KeyHeld json c (tables d) parsed opts) (suc m) fetched_keys held;
      ordered =
          subst IsSorted (sym (map-take (λ k. k.key_id) (suc m) fetched_keys))
            (IsSorted-take (suc m) (ids fetched_keys) fetched-IsSorted);
      bounded = omega (arith, size, length-take_le (suc m) fetched_keys (omega (arith, full)));
      complete = λ id k e sel behind. elim (fetched id k e sel behind) [
        | inl (i, here) ↦ elim (Bool-cases (ltb i (suc m))) [
          | inl before ↦ inl (i, at-take (suc m) i fetched_keys (ground (arith, before)) ∙ here)
          | inr after ↦ inr (
            named,
            subst (λ id. str_lt t.key_id id ≡ true) (labelled id k e)
                (IsSorted-at (ids fetched_keys) m i t.key_id k.key_id fetched-IsSorted
                  (ground (arith, after)) (map-at (λ k. k.key_id) m fetched_keys t at)
                  (map-at (λ k. k.key_id) i fetched_keys k here)),
          )
        ]
        | inr (_, less) ↦ inr (named, less m t at)
      ];
      ends = inr (
        named,
        length-take_le (suc m) fetched_keys (omega (arith, full)) ∙ sym size,
        subst (All (λ id. str_lt t.key_id id ≡ false))
            (sym (map-take (λ k. k.key_id) (suc m) fetched_keys))
            (take-last m (ids fetched_keys) t.key_id fetched-IsSorted
              (map-at (λ k. k.key_id) m fetched_keys t at)),
      );
    }

    -- If the query gives the rows of its WHERE clause in the order of their ids, up to its limit,
    -- and no stored key has the empty id, ListKeys of the Postgres driver succeeds on every state
    -- whose tables are sound and whose references parse, changes nothing, and returns a page:
    -- stored keys of the API (and of the owner, if one is named) that come behind the token, in
    -- strictly ascending order of their ids, at most as many as the page size (50 if that is not
    -- positive); each such key is on the page, or there is a next token and the key comes behind
    -- it; and a page with a next token is full, and no id on it comes behind the token.
    pub listed-IsPage :
        ((id : String) (k : Key) → keys_view.keys id ≡ some k → id ≢ "")
        → (r : ListKeysResult) × (list_keys json pool opts d ≡ (ok r, d)) × IsPage keys_view opts r
    listed-IsPage named =
        let (m, size) = limit-pos opts.page_size in
        let whole =
          subst (λ n. list_keys json pool opts d ≡ (cut_page n fetched_keys, d)) size run in
        elim (cut_page-cases json m fetched_keys (omega (arith, size, fetched_bounded))) [
          | inl (short, e) ↦ (
            record { keys = fetched_keys; next_page_token = "" },
            whole ∙ ap (λ o. (o, d)) e,
            last-IsPage (omega (arith, size, short)),
          )
          | inr (full, t, at, e) ↦
              let here = subst (λ i. get_elem? fetched_keys i ≡ some t) (pred_suc m) at in
              (
                record { keys = take (suc m) fetched_keys; next_page_token = t.key_id },
                whole ∙ ap (λ o. (o, d)) e,
                cut-IsPage m t size full here (
                    named t.key_id t
                      (All-at (KeyHeld json c (tables d) parsed opts) fetched_keys m t held
                        here).0),
              )
        ]

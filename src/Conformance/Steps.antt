-- ===== src/Conformance/Steps.antt =====
-- What an action does to the view of a store, as the tests of the suite are run one call after the
-- other.
use keychain.Base.{
  ◌≡◌, refl, Bool, true, false, ok, err, Action, pure, String-Comparable, Outcome, continue, ap,
  ◌∙◌,
}
use keychain.Store.{Err, Sentinel, errors_is}
use keychain.Store.Contract.{View, Returns}
use keychain.Conformance.{◌>>=◌, ◌>>◌, Failure, fatal_if, must, must_fail, ignoring}

module _ {S : Type 0} (Valid : S → Type 0) (view : S → View) where
  -- From every valid state with the view `v`, the action gives `a` and leaves a valid state with the
  -- view `v'`.
  pub record Leads {E A : Type 0} (v : View) (act : Action S E A) (a : A) (v' : View) : Type 0 where
    pub run : (s : S) → Valid s → view s ≡ v → Returns Valid view (act s) a v'

  -- From every valid state with the view `v`, the action fails with `e` and changes nothing.
  pub record Fails {E A : Type 0} (v : View) (act : Action S E A) (e : E) : Type 0 where
    pub run : (s : S) → Valid s → view s ≡ v → act s ≡ (err e, s)

module _ {S : Type 0} (Valid : S → Type 0) (view : S → View) where
  -- From every valid state with the view `v`, the test passes.
  pub record Passes (v : View) (test : Action S Failure (Unit {0})) : Type 0 where
    pub run : (s : S) → Valid s → view s ≡ v → (test s).0 ≡ ok tt

module _ {S : Type 0} {Valid : S → Type 0} {view : S → View} {v : View} where
  pub passed : Passes Valid view v (pure tt)
  passed = record { run = λ s valid e. refl }

  -- The first call of a test, and the rest of the test from the view that it leaves.
  pub pass_bind :
      {A : Type 0} {u : View} {m : Action S Failure A} (f : A → Action S Failure (Unit {0})) {a : A}
      → Leads Valid view v m a u
      → Passes Valid view u (f a)
      → Passes Valid view v (m >>= f)
  unfolding ◌>>=◌
  pass_bind {m = m} f h k = record {
    run = λ s valid e. let r = h.run s valid e in rw (r.result) (k.run (m s).1 r.valid r.after);
  }

  pub pass_then :
      {A : Type 0} {u : View} {m : Action S Failure A} {n : Action S Failure (Unit {0})} {a : A}
      → Leads Valid view v m a u
      → Passes Valid view u n
      → Passes Valid view v (m >> n)
  unfolding ◌>>◌
  pass_then {m = m} h k = record {
    run = λ s valid e. let r = h.run s valid e in rw (r.result) (k.run (m s).1 r.valid r.after);
  }

  pub lead_value : {A : Type 0} (a : A) → Leads Valid view v (pure {E = Failure} a) a v
  lead_value a = record { run = λ s valid e. record { result = refl; valid = valid; after = e } }

  -- Two statements and the rest of a test, grouped either way.
  pub pass_assoc :
      {A B : Type 0} (m : Action S Failure A) (g : A → Action S Failure B)
      (f : B → Action S Failure (Unit {0}))
      → Passes Valid view v (m >>= λ a. g a >>= f)
      → Passes Valid view v (m >>= g >>= f)
  unfolding ◌>>=◌
  pass_assoc {A} {B} m g f h = record {
    run = λ s valid e. ap (λ r. r.0) (regrouped (m s).0 (m s).1) ∙ h.run s valid e;
  }
    where
      regrouped :
          (r : Outcome Failure A) (s : S)
          → continue (continue r g s).0 f (continue r g s).1
            ≡ continue r (λ a s. continue (g a s).0 f (g a s).1) s
      regrouped (ok a) s = refl
      regrouped (err e) s = refl

  pub lead_done : Leads Valid view v (pure {E = Failure} tt) tt v
  lead_done = record { run = λ s valid e. record { result = refl; valid = valid; after = e } }

  pub lead_then :
      {A B : Type 0} {u w : View} {m : Action S Failure A} {n : Action S Failure B} {a : A} {b : B}
      → Leads Valid view v m a u
      → Leads Valid view u n b w
      → Leads Valid view v (m >> n) b w
  unfolding ◌>>◌
  lead_then {m = m} h k = record {
    run = λ s valid e. let r = h.run s valid e in rw (r.result) (k.run (m s).1 r.valid r.after);
  }

  pub pass_last :
      {u : View} {m : Action S Failure (Unit {0})}
      → Leads Valid view v m tt u
      → Passes Valid view v m
  pass_last h = record { run = λ s valid e. (h.run s valid e).result }

  pub lead_must :
      {A : Type 0} {u : View} (message : Failure) {call : Action S Err A} {a : A}
      → Leads Valid view v call a u
      → Leads Valid view v (must message call) a u
  unfolding must
  lead_must message h = record {
    run = λ s valid e.
        let r = h.run s valid e in
        record { result = rw (r.result) refl; valid = r.valid; after = r.after };
  }

  pub lead_ignoring :
      {A : Type 0} {u : View} (zero_value : A) {call : Action S Err A} {a : A}
      → Leads Valid view v call a u
      → Leads Valid view v (ignoring zero_value call) a u
  unfolding ignoring
  lead_ignoring zero_value h = record {
    run = λ s valid e.
        let r = h.run s valid e in
        record { result = rw (r.result) refl; valid = r.valid; after = r.after };
  }

  pub lead_must_fail :
      {A : Type 0} (message : Failure) (target : Sentinel) {call : Action S Err A} {error : Err}
      → Fails Valid view v call error
      → errors_is error target ≡ true
      → Leads Valid view v (must_fail message target call) tt v
  unfolding must_fail fatal_if
  lead_must_fail message target h is = record {
    run =
        λ s valid e. rw (h.run s valid e, is) (record { result = refl; valid = valid; after = e });
  }

  pub lead_check :
      (message : Failure) {cond : Bool}
      → cond ≡ false
      → Leads Valid view v (fatal_if message cond) tt v
  unfolding fatal_if
  lead_check message off = record {
    run = λ s valid e. rw off (record { result = refl; valid = valid; after = e });
  }

-- ===== src/Conformance/Tests.antt =====
-- The suite on the in-memory driver.
use text.Mathlib.TextLemmas.{append_cancel_left, append-eq-nil_iff}
use Prim.Native.String.{◌++◌ as text_append}
use keychain.Base.{ℕ, ◌+◌, zero, suc, ◌≡◌, ◌≢◌, refl, ap, sym, String, [], arith, String-Comparable}
use keychain.Base.Map.{get}
use keychain.Memory.{new}
use keychain.Memory.Driver.{driver, view, exact}
use keychain.Memory.Invariant.{IsValid, new-IsValid}
use keychain.Memory.Pages.{driver-Paged}
use keychain.Memory.Refinement.{driver-Contract}
use keychain.Conformance.{Surroundings}
use keychain.Conformance.Seeds.{Suits, empty_view}
use keychain.Conformance.Law.{Law}
use keychain.Conformance.Suite.{run}
use keychain.Conformance.Passing.Suite.{run-passes}

-- Uuids that differ: the longer, the later.
abbrev uuids : ℕ → String
uuids zero = ""
uuids (suc n) = text_append "u" (uuids n)

uuids-differ : (i j : ℕ) → i ≢ j → uuids i ≢ uuids j
uuids-differ zero zero ne e = ne refl
uuids-differ zero (suc j) ne e = cc (((append-eq-nil_iff).0 (sym e)).0)
uuids-differ (suc i) zero ne e = cc (((append-eq-nil_iff).0 e).0)
uuids-differ (suc i) (suc j) ne e =
    uuids-differ i j (λ same. ne (ap suc same)) (append_cancel_left "u" (uuids i) (uuids j) e)

abbrev surroundings : Surroundings
surroundings = record {
  stamps = λ n. record { now = 1000000000 + n; uuid = uuids n };
  now = 7200000000000;
}

surroundings-Suits : Suits exact surroundings
surroundings-Suits = record {
  whole = λ t. refl;
  small = λ k v. refl;
  differ = uuids-differ;
  started = λ i. ground arith;
}

-- The driver can hold everything.
law : Law IsValid view exact driver
law = record {
  contract = driver-Contract;
  holds = record { text = λ t. refl; workspace = λ w. refl; api = λ a. refl; key = λ k. refl };
}

new-empty : view new ≡ empty_view
unfolding get
new-empty = refl

run-passes_example : run driver (λ name. surroundings) (λ name. new) ≡ []
run-passes_example =
    run-passes law driver-Paged (λ name. surroundings) (λ name. surroundings-Suits) (λ name. new)
      (λ name. new-IsValid) (λ name. new-empty)

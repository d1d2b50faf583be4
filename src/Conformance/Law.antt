-- ===== src/Conformance/Law.antt =====
-- What the suite relies on of a driver: the contract of store.go, and that it can hold what the tests
-- hand to it.
use keychain.Base.{String, ◌≡◌, true}
use keychain.Store.{Workspace, Api, Key, Store}
use keychain.Store.Contract.{View, Precision, Contract}

pub record HoldsAll (p : Precision) : Type 0 where
  pub text : (t : String) → p.holds_text t ≡ true
  pub workspace : (w : Workspace) → p.holds_workspace w ≡ true
  pub api : (a : Api) → p.holds_api a ≡ true
  pub key : (k : Key) → p.holds_key k ≡ true

pub record Law {S : Type 0} (Valid : S → Type 0) (view : S → View) (p : Precision) (st : Store S)
    : Type 0 where
  pub contract : Contract Valid view p st
  pub holds : HoldsAll p

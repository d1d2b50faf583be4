-- ===== src/Conformance/Passing.antt =====
-- Every store that keeps the contract of store.go passes the tests of the suite.
pub mod Records
pub mod Keys
pub mod Lifecycle
pub mod Uses
pub mod Lists
pub mod Owners
pub mod Apis
pub mod Pages
pub mod Paging
pub mod Suite

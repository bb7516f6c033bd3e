-- ===== src/Prelude.antt =====
-- What the components share: the libraries' names, Boolean tests, lists, byte texts and numbers.
pub mod Core
pub mod Tests
pub mod Lists
pub mod Text
pub mod Utf8
pub mod Sorts
pub mod Bytes
pub mod Assoc

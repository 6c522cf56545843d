-- ===== src/Base.antt =====
-- What all components share: library names and tests, the state and exception monad, lists read as
-- tables, text, and the interfaces of the data stores.
pub mod Names
pub mod Results
pub mod Monad
pub mod Lists
pub mod Text
pub mod Tables
pub mod Sql
pub mod Regex
pub mod Affixes
pub mod Dicts
pub mod Sorting
pub use Names.*
pub use Results.{Result, ok, err, Result-cases}
unfoldable pub use Lists.*
unfoldable pub use Text.*
unfoldable pub use Tables.*
unfoldable pub use Sorting.*

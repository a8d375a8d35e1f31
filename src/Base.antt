-- ===== src/Base.antt =====
-- The names that the modules share: the libraries' names passed on, Boolean tests, lists, texts,
-- decidable equality as an interface, and the error monad of the validators.
mod Names
mod Tests
mod Equality
mod Lists
mod Sets
mod Text
mod Uuid
mod Int
mod Sorting
mod Raise
unfoldable pub use Names.*
unfoldable pub use Tests.*
unfoldable pub use Equality.*
unfoldable pub use Lists.*
unfoldable pub use Text.*
unfoldable pub use Uuid.*
unfoldable pub use Int.*
unfoldable pub use Sorting.*
unfoldable pub use Raise.*
unfoldable pub use Sets.*

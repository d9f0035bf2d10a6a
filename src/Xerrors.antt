-- ===== src/Xerrors.antt =====
-- The error values of the SDK (internal/xerrors) and how they are classified for a retry.
-- `Codes` holds the enumerations and their tables, `Chain` the errors and the walk of `errors.As`,
-- `Check` the functions over them, `Laws` the theorems.
mod Codes
mod Chain
mod Check
pub mod Laws
mod Tests
unfoldable pub use Codes.*
unfoldable pub use Chain.*
unfoldable pub use Check.*

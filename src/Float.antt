-- ===== src/Float.antt =====
-- What the program uses of Python's `float`: the operations, the laws that the theorems need of
-- them, and a concrete number type that meets the laws.
mod Defs
pub mod Fixed
pub use Defs.*

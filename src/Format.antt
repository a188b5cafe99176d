-- ===== src/Format.antt =====
-- The number formats of packages/ui/src/api.ts. A JavaScript number is the fraction `n / d` of two
-- whole numbers: the divisions by 1024 and the rounding of `toFixed` are then exact, as they are
-- for the doubles of the code below 2^53.
pub mod Bytes
pub mod Duration
unfoldable pub use Bytes.*
unfoldable pub use Duration.*

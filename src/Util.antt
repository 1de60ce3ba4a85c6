-- ===== src/Util.antt =====
-- The helpers of pkg/util that the rest of the operator calls.
pub mod Maps
pub mod Text
pub mod Arrays

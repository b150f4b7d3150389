-- ===== src/Dwarf.antt =====
-- The package dwarf.
pub mod Buf
pub mod Data
pub mod Frame
pub mod Line
pub mod Entry
pub mod Units
pub mod Reader
pub mod Symbol
pub mod Types

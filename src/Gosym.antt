-- ===== src/Gosym.antt =====
-- The package gosym.
pub mod Pclntab
pub mod Symtab

-- ===== src/Kernel.antt =====
-- The correction kernel, checkdigit/equipment_checkdigit.py, one child module for each part of it.
pub mod Digits
pub mod Types
pub mod Normalize
pub mod Decide
pub mod Router
pub mod X12
pub mod Explain

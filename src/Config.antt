-- ===== src/Config.antt =====
-- scripts/kconfig/confdata.c: configuration files, their reading and their writing.
pub mod Escape
pub mod Value
pub mod Line
pub mod Names
pub mod Read
pub mod Load
pub mod Print
pub mod Write

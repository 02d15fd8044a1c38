-- ===== src/Core.antt =====
-- packages/core/enums/enums.py, packages/core/models: the shared data types.
pub mod Enums
pub mod Models
pub mod Orders

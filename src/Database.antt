-- ===== src/Database.antt =====
-- The tables of app/infra/db/models.py, and the unit of work of app/infra/db/unit_of_work.py.
pub mod Tables
pub mod Session
pub mod Columns
pub mod Keeps
pub mod Leaves
pub mod Raises
pub mod Run

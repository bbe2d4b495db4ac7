-- ===== src/Save.antt =====
-- The writers of src/CreateDOM.cpp that generate code.
pub mod Slots
pub mod Braceless
pub mod Serialize
pub mod Deserialize
pub mod Enums
pub mod Script
pub mod Class
pub mod Files
pub mod Faults
pub mod Python

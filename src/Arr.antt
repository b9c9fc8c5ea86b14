-- ===== src/Arr.antt =====
-- internal/arr: what is read from the *arr applications.
pub mod Quality
pub mod Events
pub mod Records
pub mod History

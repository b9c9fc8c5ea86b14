-- ===== src/Settings.antt =====
-- internal/settings: the settings of the program and how their values are read.
pub mod Number
pub mod Store
pub mod Values
pub mod Clock

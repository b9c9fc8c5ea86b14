-- ===== src/Examples.antt =====
-- The theorems applied to concrete inputs, and test data: the pages, the server and the search cycle.
pub mod Pages
pub mod Dialogs
pub mod Server
pub mod Search
pub mod Cycles
pub mod Ticks
pub mod Log
pub mod History
pub mod Instances
pub mod Dashboard
pub mod Requests
pub mod Start

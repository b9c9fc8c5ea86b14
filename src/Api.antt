-- ===== src/Api.antt =====
-- internal/api: the handlers of the JSON API that the pages call.
pub mod Settings
pub mod Activity
pub mod Instances
pub mod Connect
pub mod Search

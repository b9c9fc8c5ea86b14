-- ===== src/SettingsPage.antt =====
-- web/static/js/settings.js: the form of the Settings page.
pub mod Formats
pub mod Form
pub mod Banner
pub mod Save
pub mod Page

-- ===== src/Settings.antt =====
-- web/src/pages/settings: the sections of the settings page. The answers to `window.confirm` are
-- arguments; the texts given to `alert` are kept in the state, the last one first.
pub mod CategorySection
pub mod ApiKeySection
pub mod OutboundSection
pub mod CronConfigSection
pub mod ChangePasswordSection
pub mod Page

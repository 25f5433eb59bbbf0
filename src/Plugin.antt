-- ===== src/Plugin.antt =====
-- lib/plugin: the registry of plugins, their commands and who may use them.
pub mod Commands
pub mod Access
pub mod Settings
pub mod Managed

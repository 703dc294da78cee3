-- ===== src/Config.antt =====
-- src/config.rs: the layered configuration.
pub mod Types
pub mod Text
pub mod Ini
pub mod Load
pub mod Modules
mod ModulePaths
pub mod Printer
mod RoundTrip
mod Numbers
mod Layers
mod Settings
mod SettingLayers
mod Tests

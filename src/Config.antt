-- ===== src/Config.antt =====
-- src/common/config_loader.cpp: how the YAML file becomes the configuration. yaml-cpp is a parameter.
pub mod Types
pub mod Fields
pub mod Sections
pub mod Rules
pub mod Load
mod Triples
mod Ranges
mod Loaded
mod Waits
mod Examples
mod Thresholds
mod Providers

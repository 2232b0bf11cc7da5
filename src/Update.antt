-- ===== src/Update.antt =====
-- The update system (backend/internal/update): versions, manifests, artifact selection, the
-- life-cycle table and the manager.
pub mod Downloader
pub mod Quote
pub mod Extract
pub mod Installer
pub mod Version
pub mod Lifecycle
pub mod Manifest
pub mod Manager
pub mod Provider
pub mod Github

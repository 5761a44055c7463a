-- ===== src/BundleServer.antt =====
-- bundle-server/server.py
pub mod Transform
pub mod Client
pub mod Governance
pub mod Fetch
pub mod Build
pub mod Server
pub mod Handler
pub mod Listener
pub mod Debounce
pub mod Overlap
pub mod System

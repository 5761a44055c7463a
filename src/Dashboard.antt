-- ===== src/Dashboard.antt =====
-- dashboard/server.py
pub mod Session
pub mod State
pub mod Store
pub mod Catalog
pub mod Governance
pub mod Login
pub mod Instances
pub mod Approvals
pub mod Constraints
pub mod Users
pub mod UserList
pub mod Tools
pub mod Proxy
pub mod Envoy
pub mod Overview
pub mod Suggestions
pub mod Search
pub mod Docker
pub mod Launch
pub mod Wiring
pub mod Containers
pub mod Route
pub mod Backends
pub mod Server
pub mod Pages
pub mod Cleanup
pub mod Sweep
pub mod System

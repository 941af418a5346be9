-- ===== src/Tests.antt =====
-- The theorems at concrete inputs.
pub mod SignUp
mod Resetting
mod Addresses
mod Ordered
mod Granting
mod Proxies
mod Contracts
pub mod Servers
pub mod Forms
pub mod Passwords
pub mod Articles
pub mod Context
pub mod Tables
pub mod Pages
pub mod Composition
pub mod Confinement
pub mod Journeys

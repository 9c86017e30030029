-- ===== src/Tests.antt =====
-- Runs of the modelled code on concrete inputs, and instances of the theorems.
pub mod Daemon
pub mod Jobs
pub mod Configuration
pub mod Api
pub mod Settings
pub mod Server
pub mod Profiles
pub mod Operations
pub mod Client
pub mod Commands

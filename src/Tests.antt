-- ===== src/Tests.antt =====
-- Runs of the models at concrete inputs, and each theorem at one of them.
mod Worker
mod Data
mod Store
mod Text
mod Judge
mod Uploads
mod Jobs
mod Settings
mod Clients
mod Api
mod Engines
mod System
mod Program

-- ===== src/Tests.antt =====
-- Tests at concrete inputs, and the witnesses of the properties.
mod FilePath
mod Adapter
mod Data
mod Locks
mod Disk
mod Requests
mod Server
mod Work
mod Tables
mod Access
mod Bodies
mod Composed
mod Start
mod Stopping

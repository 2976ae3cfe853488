-- ===== src/Tests.antt =====
-- The theorems applied to concrete inputs.
mod Story
mod Counts
mod Options
mod Events
mod Boot
mod World
mod Passes
mod Devices
mod Exports
mod Settings
mod Messages
mod Quotes
mod Packets
mod Files
mod Reports
mod Netlink

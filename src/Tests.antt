-- ===== src/Tests.antt =====
-- Runs of the definitions and instances of the theorems at concrete inputs.
mod Fixtures
mod Strings
mod Epss
mod Kev
mod Report
mod Enrich
mod Metrics
mod Feeds
mod Queue
mod Controller
mod App
mod System
mod Race
mod Shared
mod Setup
mod Server
mod Main
mod Lifecycle
mod Gzip

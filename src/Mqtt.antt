-- ===== src/Mqtt.antt =====
-- The printer's message channel: src/mqtt.rs and src/mqtt/.
pub mod Command
pub mod Message
pub mod Client
pub mod Inflight
pub mod Invariant
pub mod Operations
pub mod Reachable
pub mod Service
pub mod Refine
pub mod Stop
pub mod Restart
pub mod Methods
pub mod Sequence
pub mod Progress
pub mod Ignored
pub mod Requests
pub mod Tests
pub mod Attributes
pub mod Wire
pub mod Printer
pub mod Supported
pub mod Keys
pub mod Delivered
pub mod CommandTests
pub mod CommandRuns
pub mod MessageTests
pub mod WireTests
pub mod Reading

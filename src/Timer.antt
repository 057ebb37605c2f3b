-- ===== src/Timer.antt =====
-- The timer engine, include/qing/util/time_engine.h and src/util/time_engine.cpp.
pub mod Clock
pub mod Defs
pub mod Tables
pub mod Register
pub mod Visit
pub mod Valid
pub mod Preserve
pub mod Frame
pub mod Passes
pub mod Deleted
pub mod Doomed
pub mod History
pub mod Growth
pub mod Termination
pub mod Due
pub mod Reads
pub mod Pace
pub mod Rate
pub mod Rising
pub mod Order
pub mod Unending
pub mod Reentry
pub mod ReentryCalls
pub mod Reentered
pub mod Walk
pub mod Reference
pub mod Ids
pub mod Thread
pub mod Threads
pub mod Locks
pub mod ThreadSteps
pub mod Race
pub mod Overtake
pub mod OneShot
pub mod Timing
pub mod LocalClock
pub mod LocalTrigger
pub mod LocalZone
pub mod FunTime
pub mod Watches
mod Tests
mod PassTests
mod OrderTests
mod ReentryTests
mod RateTests
mod ThreadTests
mod LocalTests

-- ===== src/Tests.antt =====
-- The theorems at concrete inputs, and tests of the definitions.
mod Framework
mod Lookahead
mod Sources
mod Texts
mod Transformation
mod Printing
mod Measuring
mod Service
mod Configuration
mod Startup
mod Jobs
mod Runs

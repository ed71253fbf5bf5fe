-- ===== src/Scenarios.antt =====
-- The development at concrete inputs: a sample outside world, runs of the code, and instances of the
-- theorems.
mod Sample
mod Runs
mod Instances
mod Exchanges
mod Streams
mod Market

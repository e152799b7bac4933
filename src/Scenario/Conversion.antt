-- ===== src/Scenario/Conversion.antt =====
-- scenario/conversion.go: from the incoming scenario to the one that the process reads.
mod Loops
pub mod Epochs
pub mod Switches
pub mod Ceremonies
pub mod Convert
mod Tests

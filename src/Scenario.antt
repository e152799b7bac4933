-- ===== src/Scenario.antt =====
-- The scenario package: the text of number lists, the incoming data, its validation and its
-- conversion to the scenario that the process reads.
pub mod Nums
pub mod Incoming
pub mod Counts
pub mod Validation
pub mod Model
pub mod Conversion

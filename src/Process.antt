-- ===== src/Process.antt =====
-- process: what the users of a test do. `Flips` has the flips they make and `Submission` how they submit
-- them, `Hashes` the flips they get in a session, `Answers` what they answer, `Assertion` the comparison
-- of a test with the scenario, and `Txs` and `Background` the transactions that the scenario asks for;
-- `Online` is when a user asks its node to go online or offline, and `Verification` puts the flips and
-- answers of the two sessions together.
pub mod Flips
pub mod Submission
pub mod Hashes
pub mod Answers
pub mod Assertion
pub mod Txs
pub mod Background
pub mod Online
pub mod Verification
pub mod Users
pub mod Invites
pub mod Epoch
pub mod Start

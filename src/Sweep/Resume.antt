-- ===== src/Sweep/Resume.antt =====
-- A sweep that is run again goes on where the last one stopped.
pub mod Step
pub mod Loop
pub mod Finish

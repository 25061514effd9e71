-- ===== src/Queue/Copies.antt =====
-- How often a job stands in the four queues, and what each Redis command of the program does to
-- that count.
pub mod Tally
pub mod Commands

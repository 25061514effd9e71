-- ===== src/Queue.antt =====
-- app/core/job_queue.py. Redis is `Redis`, a parameter: its lists and sorted sets as the commands
-- show them, head of a list first. A time is a number of microseconds, also the score of a delayed
-- job; a text is the list of its code points. `Codec` is what the program takes from `json` and
-- `datetime`. A command that fails with a `RedisError` is not modelled here.
-- A `Job` holds the declared types: where a queue holds JSON of another shape, the model raises,
-- and Python may go on with a value of the wrong type.
pub mod Redis
pub mod Job
pub mod Backoff
pub mod Ops
pub mod Copies
pub mod Conservation
pub mod Batches

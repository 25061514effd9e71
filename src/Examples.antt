-- ===== src/Examples.antt =====
-- The theorems at concrete inputs: a Redis in memory, a coding of JSON, settings and users.
mod Memory
mod Tables
mod AuthTests
mod ResetTests
mod SendingTests
mod Codec
mod Jobs
mod QueueTests
mod AccessTests
mod ConfigTests
mod WebhookTests
mod Files
mod UploadTests
mod LimitTests
mod UserTests
mod TenantTests
mod ListingTests

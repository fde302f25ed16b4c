-- ===== src/Samples/Tests.antt =====
-- The theorems at concrete inputs, by the part of the program that they are about.
mod RolesTests
mod AccessTests
mod RedisTests
mod QueueTests
mod GuardTests
mod UserTests
mod ThrottlerTests
mod AuthTests
mod LoginTests
mod ConnectionTests
mod HttpTests

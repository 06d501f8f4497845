-- ===== src/Redis.antt =====
-- src/redis/redis_client.cpp: the distributed lock and the registry of services. The Redis server
-- is a parameter; the Lua scripts that the client sends are translated, and each runs whole.
pub mod Server
pub mod Lock
pub mod LockLaws
pub mod Services

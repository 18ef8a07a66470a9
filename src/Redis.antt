-- ===== src/Redis.antt =====
-- plugins/redis/check_redis.cpp: the commands that are sent, the replies that are read, and the verdict.
pub mod Protocol
pub mod Decoding
pub mod Check
pub mod Sockets

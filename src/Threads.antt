-- ===== src/Threads.antt =====
-- Two threads of src/statsd.c at once, one access to shared memory at a time.
pub mod Counter
pub mod Ring
pub mod Timer

-- ===== src/Startup.antt =====
-- The start and the end of the runtime (runtime/init.c, runtime/global.c), and the configuration of
-- one thread (runtime/cilk2c.c).
mod CpuSet
mod Pin
mod Options
mod Boot
mod Config
mod Region
mod Tests

-- ===== src/Stats.antt =====
-- main/stats.c: the counters that the serve path bumps.
pub mod Counters
pub mod Sender

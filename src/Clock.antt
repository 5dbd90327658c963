-- ===== src/Clock.antt =====
-- Times. The source reads clocks as floating-point seconds; here they are whole milliseconds, and the
-- value that a call reads is an argument of the operation.
use plugin_baselithbot.Common.{ℕ}

-- 1.0
abbrev pub second : ℕ
second = 1000

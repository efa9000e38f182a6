-- ===== src/Index/Isr.antt =====
-- src/index/src/lib/isr*.cpp: streams of locations. `Stream` is the abstract class ISR.
pub mod Stream
pub mod Docs
pub mod Lists
pub mod Word
pub mod Or
pub mod Phrase
pub mod And
pub mod Container
mod Runs
use search_engines.Base.{ℕ, ◌^◌, ◌-◌}

-- `ISRSentinel`, the location that no posting has.
abbrev pub isr_sentinel : ℕ
isr_sentinel = 2 ^ 32 - 1

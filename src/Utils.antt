-- ===== src/Utils.antt =====
-- src/utils: the containers and the text encodings.
pub mod PriorityQueue
pub mod HashTable
pub mod Utf8
pub mod Utf16
mod Runs
mod TextRuns

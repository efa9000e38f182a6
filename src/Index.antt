-- ===== src/Index.antt =====
-- src/index/src/lib: the index and what it is built with.
pub mod Outcome
pub mod VByte
pub mod SeekTable
pub mod Types
pub mod Isr
pub mod Stemmer
pub mod UrlFeatures
pub mod Features
pub mod Tokenizer
pub mod InMemoryIndex
mod Runs

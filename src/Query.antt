-- ===== src/Query.antt =====
-- src/index/src/lib/query_tokenizer.cpp and query_compiler.cpp: from a query to a tree of streams.
pub mod Tokens
pub mod Tokenizer
pub mod Compiler
pub mod TopK
mod Runs

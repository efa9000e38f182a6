-- ===== src/Crawler/Robots.antt =====
-- src/crawler/RobotsTxt.cpp: reading a robots.txt file and asking it about a path. Every string that
-- the source ends with a NUL is the text before it; a pointer into the file is the text from there
-- to the bound.
pub mod Decode
pub mod Statements
pub mod Wildcards
pub mod Rules
pub mod Parse
mod Runs

-- ===== src/Lib.antt =====
-- A model of the core of the search engine: the index that is built from pages, the streams that
-- read it, the compiler from queries to streams, and the crawler's queues, rules and filters. The
-- sources are C++; paths are from the repository's root.
--
-- The parts, and how they meet:
--   * src/index/src/lib/tokenizer.cpp turns a parsed page into terms at locations
--     (Index/Tokenizer), through the stemmer of tokenizer.h (Index/Stemmer) and the counts of
--     document_features.cpp and url_features.cpp (Index/Features, Index/UrlFeatures).
--   * in_memory_index.cpp collects the terms in posting lists (Index/InMemoryIndex).
--   * vbyte.cpp writes a posting list as bytes (Index/VByte), and seek_table.cpp a table of places
--     in them (Index/SeekTable).
--   * isr.cpp reads such bytes as a stream of locations (Index/Isr/Word), and isr_or.cpp,
--     isr_phrase.cpp, isr_and.cpp and isr_container.cpp combine streams (Index/Isr/Or, Phrase, And,
--     Container). They know their terms through the abstract class ISR, which is the record
--     `Stream` of Index/Isr/Stream, with laws in terms of a view: the locations that are left.
--     Index/Isr/Word/Streams makes such a record of the reader of a word; a phrase or a conjunction
--     in the place of a term need not keep the law of `seek`.
--   * query_tokenizer.cpp splits a query (Query/Tokenizer), and query_compiler.cpp builds the
--     streams (Query/Compiler), over a record of their constructors. The best documents are kept in
--     the heap of query_engine.cpp (Query/TopK).
--   * src/utils/PriorityQueue.hpp is the binary heap (Utils/PriorityQueue), over any comparison, and
--     Utf8.cpp reads and writes the encodings (Utils/Utf8, Utils/Utf16). hash/HashTable.h is the table
--     of chained buckets (Utils/HashTable), over any hash and any comparison that says of two keys
--     that they are equal only where they are.
--   * src/crawler/frontier.cpp hands out the addresses to fetch (Crawler/Frontier): it keeps the items
--     of FrontierItem.cpp (Crawler/FrontierItem, Crawler/Decimal) in the queues of frontier.h
--     (Crawler/BufferedQueue), with the hosts that wait in the binary heap, and writes those that it
--     has no room for to chunk files (Crawler/ChunkFile).
--   * url_dedup.cpp brings addresses into a canonical form and remembers them in a Bloom filter
--     (Crawler/Dedup, Crawler/Bloom), and UrlFilter.cpp refuses extensions and hosts
--     (Crawler/UrlFilter).
--   * RobotsTxt.cpp reads the robots.txt file of a site and answers for a path (Crawler/Robots);
--     RobotsCache.cpp keeps such files and the times of access (Crawler/RobotsCache).
--
-- How the code is rendered. A class is a record of its members, and a method a function that
-- returns the answer and the new state. A C++ integer is a number, with its wrap-around written
-- out where the code can reach it (`add32`, `sub32`). A pointer into a buffer is the list of the
-- bytes from it on; a read past the end and a shift that is too wide are `none`, or `undefined` in
-- an `Outcome`, whose other failures are exceptions. A string is a list of byte values, a vector a
-- list, a hash map an association list. The string, vector and pointer classes of src/utils are
-- taken for lists.
--
-- Fuel. The loops of ISRAnd, ISRPhrase and ISRContainer take fuel, and the theorems say that
-- more fuel than there are locations left in the terms is enough; the loop of ISRWord::seek
-- takes the number of postings left and two; the query compiler takes more than the number of
-- tokens; the query tokenizer takes more than the number of characters, where it ends at all;
-- the loops of the heaps take an index or the size; the matcher of a robots.txt wildcard takes
-- the product of the two lengths, each made one larger, and the loops that read such a file the
-- length of what is left to read; the doubling of the hash table's size takes the size that is
-- wanted; the loops of the frontier take the number of hosts that sleep or are ready; a decimal
-- number takes twenty digits, and the reader of a chunk file one round more than the file has
-- characters. The other loops are recursions on a list, on a number or on a well-founded order.
--
-- A pointer into a robots.txt file or an encoded text is the text up to the bound; a NUL-terminated
-- string is the text before the NUL. What the network, the clock and MD5 give is a parameter or an
-- argument.
--
-- Not modelled: the crawler's worker and its scores, the HTML parser, the chunk files of the
-- index, the ranker, the servers and the threads, with their locks and waits. The parser's
-- results are the record `HtmlDocument`; what ISRAnd and ISRContainer ask of a chunk is the
-- record `Docs`. The copies of the course's homework under homeworks/ are no part of the
-- program.
pub mod Base
pub mod Index
pub mod Crawler
pub mod Query
pub mod Utils

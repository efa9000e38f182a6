-- ===== src/Crawler/Runs.antt =====
-- Addresses, a small Bloom filter and an item of the frontier.
use search_engines.Crawler.ChunkFile.{write_disk_chunk}
use search_engines.Base.{
  ℕ, true, false, ◌≡◌, refl, arith, [], Text, some, codes, inr, length, replicate, not, All, ◌∷◌,
  ◌≢◌, Bool, List, slash,
}
use search_engines.Crawler.Bloom.{
  UrlBloomFilter, check_and_insert, insert, probably_contains, set_all, set_bit, index_of, unpack,
  packed_bits,
}
use search_engines.Crawler.Bloom.Member.{IsFilter, check_and_insert_lem}
use search_engines.Crawler.Dedup.{
  normalize_url, pieces_of, remove_dot_segments, resolve, trim, strip_trailing_slash_from_path,
}
use search_engines.Crawler.FrontierItem.{
  FrontierItem, deserialize_from_line, with_seed_distance, extract_rest, new_item,
  serialize_to_line, split_host_and_path, parse_host, compute_path_depth,
}
use search_engines.Crawler.UrlFilter.{extract_host, is_allowed, add_blocked_domain}
use search_engines.Crawler.FrontierItem.RoundTrip.{
  deserialize_from_line-serialize_to_line, IsWritable,
}
use search_engines.Crawler.Dedup.Segments.{IsPlain, pieces_of-remove_dot_segments}
use search_engines.Crawler.UrlFilter.Hosts.{is_allowed-add_blocked_domain}
use search_engines.Crawler.Bloom.Packed.{unpack-packed_bits}
use search_engines.Crawler.BufferedQueue.{BufferedQueue, push_back, push_front, pop_front}
use search_engines.Crawler.BufferedQueue.Refines.{Holds, Pops, BufferedQueue-Holds}
use search_engines.Crawler.RobotsCache.{
  check_and_reserve, check_entry, verdict, entry_or_fetch, fetch_robots_txt, parse_content,
  extract_origin, allowed,
}
use search_engines.Crawler.RobotsCache.Polite.{after, check_and_reserve-polite}
use search_engines.Crawler.Frontier.{Frontier}

-- A stand-in for the digest.
abbrev sum_key : Text → ℕ × ℕ
sum_key s = (length s, 7)

abbrev small_filter : UrlBloomFilter
small_filter = record { bit_count = 20; hash_count = 3; bits = replicate 20 false }

small_filter-IsFilter : IsFilter small_filter
small_filter-IsFilter = (omega arith, refl)

check_and_insert_lem_example :
    ((check_and_insert sum_key small_filter (codes "http://a.com")).0
      ≡ not (probably_contains sum_key small_filter (codes "http://a.com")))
    × IsFilter (check_and_insert sum_key small_filter (codes "http://a.com")).1
    × (probably_contains sum_key
          (check_and_insert sum_key small_filter (codes "http://a.com")).1
          (codes "http://a.com")
        ≡ true)
check_and_insert_lem_example =
    check_and_insert_lem sum_key small_filter (codes "http://a.com") small_filter-IsFilter refl

unpack-packed_bits_example :
    unpack 20 (packed_bits (insert sum_key small_filter (codes "http://a.com")))
    ≡ (insert sum_key small_filter (codes "http://a.com")).bits
unfolding insert set_all set_bit index_of
unpack-packed_bits_example =
    unpack-packed_bits (insert sum_key small_filter (codes "http://a.com")) (omega arith, refl)

pieces_of-remove_dot_segments_example :
    ((rest : Text) × (remove_dot_segments (codes "/a/../b/./c/") ≡ slash ∷ rest))
    × (pieces_of (remove_dot_segments (codes "/a/../b/./c/"))
        ≡ resolve [] (pieces_of (codes "/a/../b/./c/")))
    × All IsPlain (resolve [] (pieces_of (codes "/a/../b/./c/")))
pieces_of-remove_dot_segments_example = pieces_of-remove_dot_segments (codes "/a/../b/./c/")

resolved_path : remove_dot_segments (codes "/a/../b/./c/") ≡ codes "/b/c/"
unfolding remove_dot_segments resolve
resolved_path = refl

normalized_address :
    normalize_url (codes " HTTP://Example.COM/A/#top ") ≡ codes "http://example.com/A"
unfolding normalize_url trim strip_trailing_slash_from_path
normalized_address = refl

-- The canonical address of a canonical address can be another one.
normalized_again :
    (normalize_url (codes "http://a.com/?q/#top") ≡ codes "http://a.com?q/")
    × (normalize_url (codes "http://a.com?q/") ≡ codes "http://a.com?q")
unfolding normalize_url trim strip_trailing_slash_from_path
normalized_again = (refl, refl)

abbrev item : FrontierItem
item = new_item (codes "x.uk/b/")

item-IsWritable : IsWritable item
unfolding with_seed_distance extract_rest split_host_and_path parse_host compute_path_depth
item-IsWritable = record {
  barless = (refl, (refl, (refl, (refl, (refl, (refl, (refl, tt)))))));
  one_line = (refl, (refl, (refl, (refl, (refl, (refl, (refl, tt)))))));
  base_length_fits = omega arith;
  seed_distance_fits = omega arith;
  path_depth_fits = omega arith;
}

deserialize_from_line-serialize_to_line_example :
    deserialize_from_line (serialize_to_line item) ≡ some item
deserialize_from_line-serialize_to_line_example =
    deserialize_from_line-serialize_to_line item item-IsWritable

is_allowed-add_blocked_domain_example :
    is_allowed
      (add_blocked_domain (codes "http://Bad.com/x") [])
      (codes "https://www.bad.com/page.html")
    ≡ false
unfolding extract_host
is_allowed-add_blocked_domain_example =
    is_allowed-add_blocked_domain [] (codes "http://Bad.com/x")
      (codes "https://www.bad.com/page.html") refl (inr (119, codes "ww", refl))

abbrev no_file : Text → Text
no_file url = []

abbrev other_origin : List (ℕ × Text)
other_origin = (1200, codes "http://b.com/") ∷ (1300, codes "http://a.com/z") ∷ []

check_and_reserve-polite_example :
    (check_and_reserve no_file 1400 (codes "http://a.com/y") (
      after no_file other_origin
        (check_and_reserve no_file 1000 (codes "http://a.com/x") []).1)).0.status
    ≢ allowed
unfolding check_and_reserve check_entry verdict entry_or_fetch fetch_robots_txt parse_content
    extract_origin
check_and_reserve-polite_example =
    check_and_reserve-polite no_file 1000 1400 (codes "http://a.com/x") (codes "http://a.com/y") []
      other_origin refl refl refl (omega arith) (omega arith)

-- A queue whose front has moved on.
abbrev moved_queue : BufferedQueue ℕ
moved_queue = record { storage = 1 ∷ 2 ∷ 3 ∷ []; front_index = 2 }

BufferedQueue-Holds_example :
    Holds (push_back moved_queue 9) (3 ∷ 9 ∷ [])
    × Holds (push_front moved_queue 9) (9 ∷ 3 ∷ [])
    × Pops (3 ∷ []) (pop_front moved_queue)
BufferedQueue-Holds_example = BufferedQueue-Holds moved_queue (3 ∷ []) 9 (omega arith, refl)

-- A frontier with room for one item in its reservoir.
abbrev small_frontier : Frontier
small_frontier = record {
  host_queues = [];
  ready_hosts = record { storage = []; front_index = 0 };
  sleeping_hosts = [];
  reservoir = item ∷ [];
  disk_back_reservoir = item ∷ [];
  disk_chunks = write_disk_chunk (item ∷ []) ∷ [];
  closed = false;
  auto_close_when_drained = true;
  pending = 3;
  queued = 3;
  max_queued_items = 1;
  active_host_key = [];
}

abbrev every_chunk : ℕ → Bool
every_chunk n = true

-- ===== src/Crawler/Frontier/Counts.antt =====
-- src/crawler/frontier.cpp: `queued` is the number of the items that the layers hold.
use search_engines.Crawler.Bloom.{is_empty as no_text}
use search_engines.Crawler.ChunkFile.{write_disk_chunk}
use search_engines.Crawler.ChunkFile.RoundTrip.{IsLine}
use search_engines.Base.{ℕ, ◌+◌, Bool, ◌≡◌, List, [], ◌∷◌, Text, length, All, Option, some}
use search_engines.Crawler.Frontier.{Frontier, HostQueue}
use search_engines.Crawler.FrontierItem.{FrontierItem}
use search_engines.Crawler.BufferedQueue.{contents}

abbrev pub hosts_total : List (Text × HostQueue) → ℕ
hosts_total [] = 0
hosts_total ((k, h) ∷ hosts) = length (contents h.items) + hosts_total hosts

abbrev pub chunks_total : List (List FrontierItem) → ℕ
chunks_total [] = 0
chunks_total (chunk ∷ chunks) = length chunk + chunks_total chunks

abbrev pub files_of : List (List FrontierItem) → List Text
files_of [] = []
files_of (chunk ∷ chunks) = write_disk_chunk chunk ∷ files_of chunks

-- The number of items in the layers.
abbrev pub held : Frontier → ℕ
held f = hosts_total f.host_queues + length f.reservoir + length f.disk_back_reservoir

-- The chunk files hold the items of these chunks, all of which can be read back, as can those that
-- may still be written to a file.
abbrev pub Holds : List (List FrontierItem) → Frontier → Type 0
Holds chunks f =
    (f.disk_chunks ≡ files_of chunks) × All (All IsLine) chunks × All IsLine f.disk_back_reservoir

-- `queued` is that many more than the items in the layers and in the chunk files.
abbrev IsAhead : ℕ → Frontier → Type 0
IsAhead extra f =
    (chunks : List (List FrontierItem)) × (Holds chunks f
      × (f.queued ≡ extra + held f + chunks_total chunks))

-- `queued` is the number of the items in the layers and in the chunk files.
abbrev pub IsCounted : Frontier → Type 0
IsCounted f =
    (chunks : List (List FrontierItem)) × (Holds chunks f
      × (f.queued ≡ held f + chunks_total chunks))

-- A call that ends, and leaves the count right.
abbrev pub Loads : Option (Bool × Frontier) → Type 0
Loads o = (r : Bool × Frontier) × (o ≡ some r) × IsCounted r.1

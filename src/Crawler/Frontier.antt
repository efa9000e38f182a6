-- ===== src/Crawler/Frontier.antt =====
-- src/crawler/frontier.cpp: the two layers of the frontier, queues of the hosts and the reservoirs behind
-- them. The state is that of one worker: `active_host_key` is its thread's. The table of hosts is an
-- association list, a chunk file its text, the last one first. `writes` and `reads` say for which
-- numbers of chunks a file can be written, and found and opened again.
pub mod Counts
use search_engines.Crawler.BufferedQueue.{
  BufferedQueue, is_empty as no_items, push_back as queue_back, push_front as queue_front,
  pop_front as queue_pop,
}
use search_engines.Crawler.Bloom.{is_empty as no_text}
use search_engines.Utils.PriorityQueue.{
  push as heap_push, top as heap_top, extract_top as heap_extract,
}
use search_engines.Crawler.FrontierItem.{FrontierItem}
use search_engines.Crawler.ChunkFile.{read_disk_chunk, write_disk_chunk}
use search_engines.Base.{◌>>=◌}
use search_engines.Crawler.UrlFilter.{ends_host}
use search_engines.Base.{codes, equal, min, max}
use search_engines.Base.{
  ℕ, ◌+◌, ◌*◌, ◌-◌, ◌/◌, suc, zero, Bool, true, false, not, ◌&&◌, ◌||◌, if◌then◌else◌, ◌==◌, leb,
  ltb, List, [], ◌∷◌, ◌++◌, Text, Option, none, some, length, take, drop, find_text, take_until,
}

pub record HostQueue : Type 0 where
  pub items : BufferedQueue FrontierItem
  pub blocked_until_ms : ℕ
  pub sleep_generation : ℕ
  pub in_flight : Bool
  pub in_ready_queue : Bool
  pub in_sleeping_queue : Bool

pub record SleepingHost : Type 0 where
  pub ready_at_ms : ℕ
  pub generation : ℕ
  pub host_key : Text

pub record Frontier : Type 0 where
  pub host_queues : List (Text × HostQueue)
  pub ready_hosts : BufferedQueue Text
  pub sleeping_hosts : List SleepingHost
  pub reservoir : List FrontierItem
  pub disk_back_reservoir : List FrontierItem
  pub disk_chunks : List Text
  pub closed : Bool
  pub auto_close_when_drained : Bool
  pub pending : ℕ
  pub queued : ℕ
  pub max_queued_items : ℕ
  pub active_host_key : Text

-- An earlier host has the higher priority.
abbrev pub wakes_first : SleepingHost → SleepingHost → Bool
wakes_first a b = ltb a.ready_at_ms b.ready_at_ms

abbrev pub key_from : Option ℕ → Text → Text
key_from none url = take_until ends_host url
key_from (some scheme_end) url = take_until ends_host (drop (scheme_end + 3) url)

unfoldable pub extract_host_key : Text → Text
extract_host_key url = key_from (find_text (codes "://") url) url

abbrev pub find_host : Text → List (Text × HostQueue) → Option HostQueue
find_host key [] = none
find_host key ((k, h) ∷ hosts) =
    let rest = find_host key hosts in if equal key k then some h else rest

abbrev pub put_host : Text → HostQueue → List (Text × HostQueue) → List (Text × HostQueue)
put_host key host [] = (key, host) ∷ []
put_host key host ((k, h) ∷ hosts) =
    let rest = put_host key host hosts in if equal key k then (k, host) ∷ hosts else (k, h) ∷ rest

abbrev pub new_host : HostQueue
new_host = record {
  items = record { storage = []; front_index = 0 };
  blocked_until_ms = 0;
  sleep_generation = 0;
  in_flight = false;
  in_ready_queue = false;
  in_sleeping_queue = false;
}

abbrev pub host_or_new : Option HostQueue → HostQueue
host_or_new none = new_host
host_or_new (some h) = h

abbrev pub is_scheduled : HostQueue → Bool
is_scheduled host = no_items host.items || host.in_flight || host.in_ready_queue

-- `sleepingHosts.push`
abbrev pub push_sleeping : SleepingHost → Frontier → Frontier
push_sleeping sleeping f = record f {
  sleeping_hosts = heap_push wakes_first sleeping f.sleeping_hosts;
}

-- A host whose wait is over goes to the ready hosts.
abbrev pub make_ready : Text → HostQueue → Frontier → Frontier
make_ready key host f =
    let host' : HostQueue = record host {
      blocked_until_ms = 0;
      in_sleeping_queue = false;
      in_ready_queue = true;
    } in
    record f {
      host_queues = put_host key host' f.host_queues;
      ready_hosts = queue_back f.ready_hosts key;
    }

-- A host that must wait goes to sleep, once.
abbrev pub make_sleep : Text → HostQueue → Frontier → Frontier
make_sleep key host f =
    if host.in_sleeping_queue
    then record f { host_queues = put_host key host f.host_queues }
    else push_sleeping
        (record {
          ready_at_ms = host.blocked_until_ms;
          generation = host.sleep_generation;
          host_key = key;
        })
        (record f {
          host_queues = put_host key (record host { in_sleeping_queue = true }) f.host_queues;
        })

-- `scheduleHost`, with the host as it stands; it is put back in the table.
unfoldable pub schedule_host : Text → HostQueue → ℕ → Frontier → Frontier
schedule_host key host now f =
    if is_scheduled host
    then record f { host_queues = put_host key host f.host_queues }
    else if ltb now host.blocked_until_ms
    then make_sleep key host f
    else make_ready key host f

abbrev pub is_stale : SleepingHost → HostQueue → ℕ → Bool
is_stale sleeping host now =
    not (host.sleep_generation == sleeping.generation)
    || is_scheduled host
    || ltb now host.blocked_until_ms

abbrev pub wake : SleepingHost → Option HostQueue → ℕ → Frontier → Frontier
wake sleeping none now f = f
wake sleeping (some host) now f =
    if is_stale sleeping host now then f else make_ready sleeping.host_key host f

abbrev pub wake_extracted : Option (SleepingHost × List SleepingHost) → ℕ → Frontier → Frontier
wake_extracted none now f = f
wake_extracted (some (sleeping, rest)) now f =
    wake sleeping (find_host sleeping.host_key f.host_queues) now
      (record f { sleeping_hosts = rest })

abbrev pub is_due : Option SleepingHost → ℕ → Bool
is_due none now = false
is_due (some sleeping) now = leb sleeping.ready_at_ms now

-- The loop of `promoteSleepingHosts`; the number of sleeping hosts is enough.
unfoldable pub promote_sleeping_hosts : ℕ → ℕ → Frontier → Frontier
promote_sleeping_hosts zero now f = f
promote_sleeping_hosts (suc n) now f =
    if is_due (heap_top wakes_first f.sleeping_hosts) now
    then promote_sleeping_hosts n now
        (wake_extracted (heap_extract wakes_first f.sleeping_hosts) now f)
    else f

unfoldable pub enqueue_scheduled_item : FrontierItem → ℕ → Frontier → Frontier
enqueue_scheduled_item item now f =
    let key = extract_host_key item.link in
    let host = host_or_new (find_host key f.host_queues) in
    schedule_host key (record host { items = queue_back host.items item }) now f

-- The items behind the reservoir that go back into it.
abbrev pub refill_count : Frontier → ℕ
refill_count f = min (f.max_queued_items * 50 / 100) (length f.disk_back_reservoir)

unfoldable pub refill_reservoir_from_disk_backed : Frontier → Frontier
refill_reservoir_from_disk_backed f =
    if leb f.max_queued_items (length f.reservoir) || leb (length f.disk_back_reservoir) 0
    then f
    else record f {
      reservoir = f.reservoir ++ take (refill_count f) f.disk_back_reservoir;
      disk_back_reservoir = drop (refill_count f) f.disk_back_reservoir;
    }

-- The items of the chunk join those behind the reservoir, and its file is removed.
abbrev pub load_chunk : List Text → Frontier → List FrontierItem → Bool × Frontier
load_chunk chunks f items =
    (true, record f { disk_back_reservoir = f.disk_back_reservoir ++ items; disk_chunks = chunks })

module _ (reads : ℕ → Bool) where
  -- The last chunk comes back, where its file is found and can be opened.
  abbrev pub load_last : List Text → Frontier → Option (Bool × Frontier)
  load_last [] f = some (false, f)
  load_last (chunk ∷ chunks) f =
      if not (reads (suc (length chunks)))
      then some (false, f)
      else read_disk_chunk chunk >>= λ items. some (load_chunk chunks f items)

  unfoldable pub load_disk_backed_chunk_from_disk : Frontier → Option (Bool × Frontier)
  load_disk_backed_chunk_from_disk f = load_last f.disk_chunks f

-- The number of items that a backup writes.
abbrev pub backup_count : Frontier → ℕ
backup_count f = length f.disk_back_reservoir * 70 / 100

module _ (writes : ℕ → Bool) where
  unfoldable pub do_back_up : Frontier → Frontier
  do_back_up f =
      if ltb (length f.disk_back_reservoir) f.max_queued_items
      then f
      else if not (writes (suc (length f.disk_chunks)))
      then f
      else record f {
        disk_chunks =
            write_disk_chunk (take (backup_count f) f.disk_back_reservoir) ∷ f.disk_chunks;
        disk_back_reservoir = drop (backup_count f) f.disk_back_reservoir;
      }

  abbrev pub add_behind : FrontierItem → Frontier → Frontier
  add_behind item f = record f { disk_back_reservoir = f.disk_back_reservoir ++ item ∷ [] }

  unfoldable pub push_internal : FrontierItem → Bool → Frontier → Frontier
  push_internal item count_towards_pending f =
      let counted : Frontier = record f {
        pending = if count_towards_pending then suc f.pending else f.pending;
        queued = suc f.queued;
      } in
      if no_text item.link
      then f
      else if ltb (length f.reservoir) f.max_queued_items
      then record counted { reservoir = f.reservoir ++ item ∷ [] }
      else add_behind item (do_back_up counted)

  unfoldable pub push : FrontierItem → Frontier → Frontier
  push item f = if f.closed || no_text item.link then f else push_internal item true f

  abbrev pub push_all : Bool → List FrontierItem → Frontier → Frontier
  push_all counts [] f = f
  push_all counts (item ∷ items) f = push_all counts items (push_internal item counts f)

  -- `pushMany` and `pushDeferred`.
  unfoldable pub push_many : List FrontierItem → Frontier → Frontier
  push_many items f = if f.closed then f else push_all true items f

  unfoldable pub push_deferred : List FrontierItem → Frontier → Frontier
  push_deferred items f = if f.closed then f else push_all false items f

-- A host that hands out an item.
abbrev pub hand_out :
    Text
    → HostQueue
    → Option (FrontierItem × BufferedQueue FrontierItem)
    → Frontier
    → Option FrontierItem × Frontier
hand_out key host none f = (none, f)
hand_out key host (some (item, rest)) f = (
  some item,
  record f {
    queued = f.queued - 1;
    host_queues = put_host key (record host { items = rest; in_flight = true }) f.host_queues;
    active_host_key = key;
  },
)

-- A host taken from the ready queue, and whether it can hand out an item.
abbrev pub can_hand_out : HostQueue → Bool
can_hand_out host = not (host.in_flight || no_items host.items)

-- The loop of `pop` over the ready hosts; their number is enough.
abbrev pub visit :
    Text
    → Option HostQueue
    → Frontier
    → (Frontier → Option FrontierItem × Frontier)
    → Option FrontierItem × Frontier
visit key none f continue = continue f
visit key (some host) f continue =
    let host' : HostQueue = record host { in_ready_queue = false } in
    if can_hand_out host
    then hand_out key host' (queue_pop host.items) f
    else continue (record f { host_queues = put_host key host' f.host_queues })

abbrev pub visit_popped :
    Option (Text × BufferedQueue Text)
    → Frontier
    → (Frontier → Option FrontierItem × Frontier)
    → Option FrontierItem × Frontier
visit_popped none f continue = (none, f)
visit_popped (some (key, rest)) f continue =
    visit key (find_host key f.host_queues) (record f { ready_hosts = rest }) continue

unfoldable pub pop_ready : ℕ → Frontier → Option FrontierItem × Frontier
pop_ready zero f = (none, f)
pop_ready (suc n) f =
    if no_items f.ready_hosts
    then (none, f)
    else visit_popped (queue_pop f.ready_hosts) f (λ f'. pop_ready n f')

abbrev pub release_found : Option HostQueue → ℕ → Frontier → Frontier
release_found none now f = record f { active_host_key = [] }
release_found (some host) now f =
    record (schedule_host f.active_host_key (record host { in_flight = false }) now f) {
      active_host_key = [];
    }

unfoldable pub release_active_host : ℕ → Frontier → Frontier
release_active_host now f =
    if no_text f.active_host_key
    then f
    else release_found (find_host f.active_host_key f.host_queues) now f

abbrev pub close_if_drained : Frontier → Frontier
close_if_drained f =
    if (f.pending == 0) && f.auto_close_when_drained then record f { closed = true } else f

unfoldable pub task_done : ℕ → Frontier → Frontier
task_done now f =
    if f.pending == 0
    then release_active_host now f
    else close_if_drained (release_active_host now (record f { pending = f.pending - 1 }))

unfoldable pub shutdown : Frontier → Frontier
shutdown f = record f { closed = true }

-- The item goes back to the front of its host, which sleeps until the time given.
abbrev pub with_item : FrontierItem → HostQueue → HostQueue
with_item item host =
    if no_text item.link then host else record host { items = queue_front host.items item }

abbrev pub snoozed : ℕ → HostQueue → HostQueue
snoozed ready_at host = record host {
  in_flight = false;
  blocked_until_ms = max ready_at host.blocked_until_ms;
  sleep_generation = suc host.sleep_generation;
}

abbrev pub snooze_host : Text → HostQueue → ℕ → Frontier → Frontier
snooze_host key host now f =
    if ltb now host.blocked_until_ms
    then make_sleep key (record host { in_sleeping_queue = false }) f
    else schedule_host key host now f

abbrev pub snooze_found : Option HostQueue → FrontierItem → ℕ → ℕ → Frontier → Frontier
snooze_found none item ready_at now f = record f { active_host_key = [] }
snooze_found (some host) item ready_at now f =
    record (snooze_host f.active_host_key (snoozed ready_at (with_item item host)) now
      (record f { queued = if no_text item.link then f.queued else suc f.queued })) {
        active_host_key = [];
      }

unfoldable pub snooze_current : FrontierItem → ℕ → ℕ → Frontier → Frontier
snooze_current item ready_at now f =
    if no_text f.active_host_key
    then f
    else snooze_found (find_host f.active_host_key f.host_queues) item ready_at now f

abbrev pub has_in_flight_work : Frontier → Bool
has_in_flight_work f = ltb f.queued f.pending

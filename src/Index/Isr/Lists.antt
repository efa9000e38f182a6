-- ===== src/Index/Isr/Lists.antt =====
-- Streams that read a list of locations in memory: the simplest objects that keep the contract.
use search_engines.Base.{ℕ, ◌<◌, refl, List, [], ◌∷◌, All}
use search_engines.Index.Isr.Stream.{
  Stream, drop_below, head_location, All-drop_below, later, is_nil,
}
use search_engines.Index.Isr.{isr_sentinel}

abbrev pub Listed : Type 0
Listed = (v : List ℕ) × All (λ l. l < isr_sentinel) v

pub All-later : (v : List ℕ) → All (λ l. l < isr_sentinel) v → All (λ l. l < isr_sentinel) (later v)
All-later [] h = tt
All-later (l ∷ ls) h = h.1

abbrev seek_list : ℕ → Listed → ℕ × Listed
seek_list t (v, h) =
    let v' = drop_below t v in
    (head_location v', (v', All-drop_below (λ l. l < isr_sentinel) t v h))

abbrev pub lists : Stream
lists = record {
  Object = Listed;
  next = λ (v, h). (head_location (later v), (later v, All-later v h));
  seek = seek_list;
  current_location = λ (v, h). head_location v;
  done = λ (v, h). is_nil v;
  view = λ (v, h). v;
  done-view = λ s. refl;
  current-view = λ s active. refl;
  next-view = λ s. refl;
  next-answer = λ s. refl;
  seek-view = λ t s h. refl;
  seek-answer = λ t s h. refl;
  view-below = λ (v, h). h;
}

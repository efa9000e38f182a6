-- ===== src/Index/Isr/Container/Exclude.antt =====
-- What ISRContainer answers: a location whose document no negative stream hits, and the loop ends.
use search_engines.Index.Isr.Container.Rounds.{IsLaidOut, Found}
use search_engines.Base.{ℕ, ◌≡◌, List, some, Option}
use search_engines.Index.Isr.Stream.{Stream}
use search_engines.Index.Isr.Docs.{Docs}
use search_engines.Index.Isr.Container.{IsrContainer}

module _ (stream : Stream) (docs : Docs) (layout : IsLaidOut stream docs) where
  abbrev Ends : List stream.Object → ℕ → Option (ℕ × IsrContainer stream docs) → Type 0
  Ends negs low o =
      (r : ℕ × IsrContainer stream docs) × (o ≡ some r) × Found stream docs layout negs low r

-- ===== src/Index/Isr/Docs.antt =====
-- What ISRAnd and ISRContainer ask of the chunk: the stream of the #DocEnd marks, with the number
-- of marks read so far, and the document table.
use search_engines.Base.{ℕ, Option}
use search_engines.Index.Types.{DocumentRecord}
use search_engines.Index.Isr.Stream.{Stream}

pub record Docs : Type 1 where
  pub ends : Stream
  pub current_index : ends.Object → ℕ
  pub get_document : ℕ → Option DocumentRecord

-- ===== src/Mux/Buffer/Tests.antt =====
-- Runs of the buffer.
use qtalk_go.Base.{[], ◌∷◌, false}
use qtalk_go.Mux.Buffer.{Buffer, read}
use qtalk_go.Mux.Buffer.Queue.{Reads, read-Reads}

abbrev two_links : Buffer
two_links = record { head = 1 ∷ []; behind = (2 ∷ 3 ∷ []) ∷ []; closed = false }

read-Reads_example : Reads 2 two_links (read 2 two_links)
read-Reads_example = read-Reads 2 two_links

-- ===== src/Status/Views.antt =====
-- The views of one dead-letter queue: its depth, which the gauges show, the status handler, the show
-- handler, and the records that the replay handler takes.
use tallyd.Base.{String, Bool, false, length}
use tallyd.Dlq.{Dlq, depth, list_regular, list_poison}
use tallyd.Dlq.Life.{Life}
use tallyd.Wal.Log.{Wal}
use tallyd.Status.{ProviderDlq}

abbrev pub entry_of : String → Dlq → ProviderDlq
entry_of p d = record { depth = length (list_regular p d); poison_depth = length (list_poison p d) }

abbrev pub no_faults : String → Bool × Bool
no_faults p = (false, false)

-- ===== src/Status.antt =====
-- internal/status/status.go: the handler of GET /v1/status. It changes nothing.
pub mod Views
use tallyd.Base.{
  String, Bool, ◌||◌, ℕ, Option, none, some, List, [], ◌∷◌, if◌then◌else◌, Map, insert, length,
}
use tallyd.Dlq.{Dlq, list_regular, list_poison}
use tallyd.Wal.Log.{Wal, unacked_count}

pub record ProviderDlq : Type 0 where
  pub depth : ℕ
  pub poison_depth : ℕ

pub record Result : Type 0 where
  pub wal_unacked_entries : ℕ
  pub dlq : Map ProviderDlq

pub data StatusReply : Type 0 where
  refuses : ℕ → StatusReply
  reports : Result → StatusReply

-- The loop over the providers. `faults`: whether List or ListPoison of a provider returns an error,
-- which ends the loop.
unfoldable pub count_providers :
    (String → Bool × Bool) → Dlq → List String → Map ProviderDlq → Option (Map ProviderDlq)
count_providers faults d [] counts = some counts
count_providers faults d (p ∷ ps) counts =
    let entry : ProviderDlq = record {
      depth = length (list_regular p d);
      poison_depth = length (list_poison p d);
    } in
    let rest = count_providers faults d ps (insert p entry counts) in
    if (faults p).0 || (faults p).1 then none else rest

unfoldable pub report : ℕ → Option (Map ProviderDlq) → StatusReply
report unacked none = refuses 500
report unacked (some counts) = reports (record { wal_unacked_entries = unacked; dlq = counts })

-- ServeHTTP
unfoldable pub serve_status : (String → Bool × Bool) → Bool → List String → Wal → Dlq → StatusReply
unfolding report
serve_status faults is_get providers w d =
    if is_get then report (unacked_count w) (count_providers faults d providers []) else refuses 405

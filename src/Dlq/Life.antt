-- ===== src/Dlq/Life.antt =====
-- The life of a dead-letter queue: Open of dlq.go, then Puts and Removes, whichever of them fail.
use tallyd.Base.{ℕ, ◌-◌, ◌≡◌, subst, String, Bool, List, pos, Map, Unique}
use tallyd.Adapter.{Event}
use tallyd.Dlq.{DeadLetter, Dlq, RemoveFault, PutFaults, depth, put, remove, open_dlq}
use tallyd.Dlq.Restart.{open_dlq-IsCounted}
use tallyd.Dlq.Drift.{
  IsNear, IsNear-exact, exact-IsNear, size_of, add, IsWithin, unsynced_by, uncounted_by,
}
use tallyd.Dlq.Drift.Puts.{put-IsWithin}
use tallyd.Dlq.Drift.Removes.{remove-IsWithin}

abbrev pub blank : String → ℕ
blank p = 0

-- The records that an operation took out before its error.
abbrev pub lost : String → Dlq → Dlq × Bool → ℕ
lost provider d result = uncounted_by result.1 (size_of provider d - size_of provider result.0)

-- What Open, and any sequence of Puts and Removes under any faults, can lead to, with two accounts
-- of the providers: the lines whose fsync has failed behind the write, and the records that were
-- taken out by a Put or a Remove which then answered an error. A directory lists no file twice.
pub data Life : (String → ℕ) → (String → ℕ) → Dlq → Type 0 where
  opened :
      (regular poison : Map (List DeadLetter))
      → Unique regular
      → Unique poison
      → Life blank blank (open_dlq regular poison)
  parked :
      {u v : String → ℕ} {d : Dlq} (faults : PutFaults) (now : ℕ) (provider : String)
      (event : Event) (reason : String) (permanent : Bool)
      → Life u v d
      → Life
          (add provider (unsynced_by faults.append) u)
          (add provider (lost provider d (put faults now provider event reason permanent d)) v)
          (put faults now provider event reason permanent d).0
  removed :
      {u v : String → ℕ} {d : Dlq} (regular_fault poison_fault : RemoveFault) (provider : String)
      (ids : List String)
      → Life u v d
      → Life u
          (add provider (lost provider d (remove regular_fault poison_fault provider ids d)) v)
          (remove regular_fault poison_fault provider ids d).0

pub Life-IsWithin : {u v : String → ℕ} {d : Dlq} → Life u v d → IsWithin u v d
Life-IsWithin (opened regular poison unique unique') =
    λ p. exact-IsNear _ _ (open_dlq-IsCounted regular poison unique unique' p)
Life-IsWithin (parked {u = u} {v = v} {d = d} faults now provider event reason permanent l) =
    put-IsWithin u v faults now provider event reason permanent d (Life-IsWithin l)
Life-IsWithin (removed {u = u} {v = v} {d = d} regular_fault poison_fault provider ids l) =
    remove-IsWithin u v regular_fault poison_fault provider ids d (Life-IsWithin l)

-- Where nothing is on a provider's accounts its depth is exact.
pub Life-exact :
    {u v : String → ℕ} {d : Dlq} (p : String)
    → Life u v d
    → u p ≡ 0
    → v p ≡ 0
    → depth d p ≡ pos (size_of p d)
Life-exact {u} {v} {d} p l e f = IsNear-exact (depth d p) (size_of p d) (
    subst (λ n. IsNear (depth d p) (size_of p d) 0 n) f
      (subst (λ n. IsNear (depth d p) (size_of p d) n (v p)) e (Life-IsWithin l p)))

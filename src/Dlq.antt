-- ===== src/Dlq.antt =====
-- internal/dlq/dlq.go: the dead-letter queue. A file is the list of its records, one to a line; an
-- absent key is a file that does not exist. Provider names that end in ".poison", whose regular file
-- would be the poison file of another provider, are left out: a file is found by its kind and provider.
pub mod Depth
pub mod Drift
pub mod Poison
pub mod Restart
pub mod Life
pub mod Lines
pub mod Rewrite
use tallyd.Base.{
  ℕ, zero, suc, ◌+◌, ◌-◌, String, Bool, true, false, not, ◌||◌, Option, none, some, List, [], ◌∷◌,
  ◌++◌, str_eq, ltb, leb, if◌then◌else◌, ℤ, pos, inc_ℤ, sub_ℤ, clamp_ℤ, Map, lookup, insert, delete,
  length,
}
use tallyd.Adapter.{Event}

abbrev pub permanent_poison_threshold : ℕ
permanent_poison_threshold = 2

abbrev pub exhausted_poison_threshold : ℕ
exhausted_poison_threshold = 3

-- Record
pub record DeadLetter : Type 0 where
  pub provider : String
  pub event : Event
  pub reason : String
  pub timestamp : ℕ
  pub attempts : ℕ
  pub poisoned : Bool

-- The DLQ and its files. The open handles are not kept: a file that has none is opened again.
pub record Dlq : Type 0 where
  pub regular : Map (List DeadLetter)
  pub poison : Map (List DeadLetter)
  pub depths : Map ℤ
  pub attempts : Map (Map ℕ)

abbrev pub or_default {ℓ} : {A : Type ℓ} → A → Option A → A
or_default d none = d
or_default d (some a) = a

-- readRecords: a file that does not exist has no records.
abbrev pub records_of : String → Map (List DeadLetter) → List DeadLetter
records_of provider files = or_default [] (lookup provider files)

-- d.depth[provider]
unfoldable pub depth : Dlq → String → ℤ
depth d provider = or_default (pos 0) (lookup provider d.depths)

-- d.attempts[provider][id]
unfoldable pub attempts_of : Map (Map ℕ) → String → String → ℕ
attempts_of m provider id = or_default 0 (lookup id (or_default [] (lookup provider m)))

unfoldable pub set_attempts : String → String → ℕ → Map (Map ℕ) → Map (Map ℕ)
set_attempts provider id n m = insert provider (insert id n (or_default [] (lookup provider m))) m

unfoldable pub contains : String → List String → Bool
contains id [] = false
contains id (x ∷ xs) = str_eq x id || contains id xs

-- What the rewrite of removeFromFile keeps.
unfoldable pub keep_others : List String → List DeadLetter → List DeadLetter
keep_others ids [] = []
keep_others ids (r ∷ rs) =
    let rest = keep_others ids rs in if contains r.event.id ids then rest else r ∷ rest

-- How a rewrite fails: while the file is read, before the rename, or at the reopening behind it.
pub data RemoveFault : Type 0 where
  removed_fine read_failed rewrite_failed reopen_failed : RemoveFault

-- removeFromFile: the file afterwards, and the count or an error. A file with nothing to remove is
-- not rewritten.
unfoldable pub remove_from_file :
    RemoveFault → List String → List DeadLetter → List DeadLetter × Option ℕ
remove_from_file read_failed ids records = (records, none)
remove_from_file rewrite_failed ids records =
    let kept = keep_others ids records in
    let count = length records - length kept in
    if leb count 0 then (records, some 0) else (records, none)
remove_from_file reopen_failed ids records =
    let kept = keep_others ids records in
    let count = length records - length kept in
    if leb count 0 then (records, some 0) else (kept, none)
remove_from_file removed_fine ids records =
    let kept = keep_others ids records in
    let count = length records - length kept in
    if leb count 0 then (records, some 0) else (kept, some count)

-- How appendRecord fails: with nothing written, or at the fsync of a line that was written.
pub data AppendFault : Type 0 where
  appended_fine nothing_written sync_failed : AppendFault

unfoldable pub append_record : AppendFault → DeadLetter → List DeadLetter → List DeadLetter × Bool
append_record appended_fine rec records = (records ++ rec ∷ [], true)
append_record nothing_written rec records = (records, false)
append_record sync_failed rec records = (records ++ rec ∷ [], false)

pub record PutFaults : Type 0 where
  pub purge : RemoveFault
  pub append : AppendFault

abbrev pub no_faults : PutFaults
no_faults = record { purge = removed_fine; append = appended_fine }

abbrev pub threshold_of : Bool → ℕ
threshold_of permanent =
    if permanent then permanent_poison_threshold else exhausted_poison_threshold

-- The depth after one append.
unfoldable pub count_append : Bool → String → Dlq → Dlq × Bool
count_append done provider d =
    if done
    then (record d { depths = insert provider (inc_ℤ (depth d provider)) d.depths }, true)
    else (d, false)

unfoldable pub append_regular : AppendFault → String → DeadLetter → Dlq → Dlq × Bool
unfolding count_append
append_regular fault provider rec d =
    let (records, done) = append_record fault rec (records_of provider d.regular) in
    count_append done provider (record d { regular = insert provider records d.regular })

append_poison : AppendFault → String → DeadLetter → Dlq → Dlq × Bool
unfolding count_append
append_poison fault provider rec d =
    let (records, done) = append_record fault rec (records_of provider d.poison) in
    count_append done provider (record d { poison = insert provider records d.poison })

-- `d.depth[provider] -= purged`, and the error path of the purge.
put_poisoned : Option ℕ → AppendFault → String → DeadLetter → Dlq → Dlq × Bool
unfolding append_poison
put_poisoned none fault provider rec d = (d, false)
put_poisoned (some purged) fault provider rec d =
    append_poison fault provider rec
      (record d { depths = insert provider (sub_ℤ (depth d provider) purged) d.depths })

-- Put at time `now`: the state afterwards, and whether the error is nil. The attempt is counted first.
unfoldable pub put : PutFaults → ℕ → String → Event → String → Bool → Dlq → Dlq × Bool
unfolding append_regular put_poisoned
put faults now provider event reason permanent d =
    let attempts = suc (attempts_of d.attempts provider event.id) in
    let poisoned = leb (threshold_of permanent) attempts in
    let rec : DeadLetter = record {
      provider = provider;
      event = event;
      reason = reason;
      timestamp = now;
      attempts = attempts;
      poisoned = poisoned;
    } in
    let counted = record d { attempts = set_attempts provider event.id attempts d.attempts } in
    let (left, purged) =
      remove_from_file faults.purge (event.id ∷ []) (records_of provider d.regular) in
    if poisoned
    then put_poisoned purged faults.append provider rec
        (record counted { regular = insert provider left counted.regular })
    else append_regular faults.append provider rec counted

-- List and ListPoison
unfoldable pub list_regular : String → Dlq → List DeadLetter
list_regular provider d = records_of provider d.regular

unfoldable pub list_poison : String → Dlq → List DeadLetter
list_poison provider d = records_of provider d.poison

unfoldable pub count_removed : ℕ → Option ℕ → String → Dlq → Dlq × Bool
count_removed n none provider d = (d, false)
count_removed n (some m) provider d = (
  record d { depths = insert provider (clamp_ℤ (sub_ℤ (depth d provider) (n + m))) d.depths },
  true,
)

unfoldable pub remove_poison : Option ℕ → RemoveFault → String → List String → Dlq → Dlq × Bool
unfolding count_removed
remove_poison none fault provider ids d = (d, false)
remove_poison (some n) fault provider ids d =
    let (left, m) = remove_from_file fault ids (records_of provider d.poison) in
    count_removed n m provider (record d { poison = insert provider left d.poison })

-- Remove: the regular file first; after an error there the poison file is not touched.
unfoldable pub remove : RemoveFault → RemoveFault → String → List String → Dlq → Dlq × Bool
unfolding remove_poison
remove regular_fault poison_fault provider [] d = (d, true)
remove regular_fault poison_fault provider (id ∷ ids) d =
    let (left, n) = remove_from_file regular_fault (id ∷ ids) (records_of provider d.regular) in
    remove_poison n poison_fault provider (id ∷ ids)
      (record d { regular = insert provider left d.regular })

-- Open reads each file of the directory: its provider and its records.
unfoldable pub scan_record : String → DeadLetter → Dlq → Dlq
scan_record provider rec d =
    let known = attempts_of d.attempts provider rec.event.id in
    let attempts =
      if ltb known rec.attempts
      then set_attempts provider rec.event.id rec.attempts d.attempts
      else d.attempts in
    record d { attempts = attempts; depths = insert provider (inc_ℤ (depth d provider)) d.depths }

unfoldable pub scan_records : String → List DeadLetter → Dlq → Dlq
scan_records provider [] d = d
scan_records provider (r ∷ rs) d = scan_records provider rs (scan_record provider r d)

unfoldable pub scan_files : Map (List DeadLetter) → Dlq → Dlq
scan_files [] d = d
scan_files ((provider, records) ∷ files) d = scan_files files (scan_records provider records d)

-- Open on the regular and the poison files of a directory that can be read.
unfoldable pub open_dlq : Map (List DeadLetter) → Map (List DeadLetter) → Dlq
open_dlq regular poison =
    scan_files poison (
      scan_files regular
        (record { regular = regular; poison = poison; depths = []; attempts = [] }))

-- Close on the errors of the open handles: every handle is closed, and the first error stands.
unfoldable pub close_dlq : List (Option String) → Option String
close_dlq [] = none
close_dlq (none ∷ handles) = close_dlq handles
close_dlq (some e ∷ handles) = some e

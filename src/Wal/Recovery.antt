-- ===== src/Wal/Recovery.antt =====
-- Crash recovery of internal/wal/wal.go: what a durable record does to the index, in one place, and
-- the statements that the children prove.
pub mod Effects
pub mod Replaying
pub mod Appends
pub mod Frames
pub mod Drops
pub mod Opening
pub mod Commits
pub mod Doubts
pub mod Crash
pub mod Failures
use tallyd.Base.{
  ℕ, suc, ◌^◌, ◌<◌, ◌≡◌, ◌⊎◌, String, Bool, true, false, Option, none, some, List, [], ◌∷◌, ◌++◌,
  Map, lookup, length, take,
}
use tallyd.Adapter.{Event, Disposition}
use tallyd.Wal.Record.{DecodedRecord, encode_frame, encode_frames, rec_type_event, rec_type_ack}
use tallyd.Wal.Record.RoundTrip.{AllFit}
use tallyd.Wal.Log.{EntryState}
use tallyd.Wal.Commit.{Json, Change, appends, acks, Request, Faults}
use tallyd.Wal.Replay.{File, replay_event, replay_ack}

-- encoding/json: what was marshalled unmarshals to the same value.
pub record JsonLaws (json : Json) : Type 0 where
  pub event_back :
      (e : Event) (ps : List String) (payload : List ℕ)
      → json.marshal_event e ps ≡ some payload
      → json.unmarshal_event payload ≡ some (e, ps)
  pub ack_back :
      (id provider : String) (d : Disposition) (payload : List ℕ)
      → json.marshal_ack id provider d ≡ some payload
      → json.unmarshal_ack payload ≡ some (id, provider)

-- A request as Append and Ack submit it, with a body that fits the length word.
pub data Framed (json : Json) (r : Request) : Type 0 where
  framed_event :
      (e : Event) (ps : List String) (payload : List ℕ)
      → r.change ≡ appends e ps
      → json.marshal_event e ps ≡ some payload
      → suc (length payload) < 2 ^ 32
      → r.frame ≡ encode_frame rec_type_event payload
      → Framed json r
  framed_ack :
      (id provider : String) (d : Disposition) (payload : List ℕ)
      → r.change ≡ acks id provider
      → json.marshal_ack id provider d ≡ some payload
      → suc (length payload) < 2 ^ 32
      → r.frame ≡ encode_frame rec_type_ack payload
      → Framed json r

-- A rotation may fail, and so may a write before its first byte.
abbrev pub LeavesNothing : Faults → Type 0
LeavesNothing faults = (faults.write_fails ≡ none) ⊎ (faults.write_fails ≡ some 0)

-- A batch in which every failure is one that leaves no bytes.
abbrev pub Clean : Json → List (Request × Faults) → Type 0
Clean json [] = Unit {0}
Clean json ((r, faults) ∷ rs) = Framed json r × LeavesNothing faults × Clean json rs

-- What the record of a change in segment `seq` does to the index.
pub index_change : Change → ℕ → Map EntryState → Map EntryState
index_change (appends e ps) seq index = replay_event seq e ps index
index_change (acks id provider) seq index = replay_ack id provider index

-- Two indexes hold the same entries; the order of a Go map is not observable.
abbrev pub SameIndex : Map EntryState → Map EntryState → Type 0
SameIndex i j = (k : String) → lookup k i ≡ lookup k j

-- Two indexes agree on some of the ids.
abbrev pub SameOn : (String → Type 0) → Map EntryState → Map EntryState → Type 0
SameOn K i j = (k : String) → K k → lookup k i ≡ lookup k j

-- Each file holds whole frames.
abbrev pub AllWhole : List File → Type 0
AllWhole [] = Unit {0}
AllWhole (f ∷ fs) =
    ((recs : List DecodedRecord) × (f.bytes ≡ encode_frames recs) × AllFit recs) × AllWhole fs

-- The files after a crash that cut the write of `frame` to the last file after `cut` bytes.
pub torn_files : List ℕ → List File → List File
torn_files tail [] = []
torn_files tail (f ∷ []) = record f { bytes = f.bytes ++ tail } ∷ []
torn_files tail (f ∷ g ∷ fs) = f ∷ torn_files tail (g ∷ fs)

-- ===== src/Wal/Recovery/Replaying.antt =====
-- Induction over replay in internal/wal/wal.go: what every change keeps holds of the index behind it.
use tallyd.Base.{◌≡◌, refl, subst, inl, inr, ℕ, none, some, List, [], ◌∷◌, Map, arith}
use tallyd.Wal.Record.{DecodedRecord, Scan, decode_records}
use tallyd.Wal.Log.{EntryState}
use tallyd.Wal.Commit.{Json, Change}
use tallyd.Wal.Replay.{
  File, Replay, replayed, failed, panicked, ◌>>=◌, replay_records, replay_scan, replay_file,
  replay_files,
}
use tallyd.Wal.Recovery.{index_change}
use tallyd.Wal.Recovery.Effects.{replay_record-cases}

pub >>=-eq-replayed {ℓ κ} :
    {A : Type ℓ} {B : Type κ} (r : Replay A) (f : A → Replay B) {b : B}
    → (r >>= f) ≡ replayed b
    → (a : A) × (r ≡ replayed a) × (f a ≡ replayed b)
>>=-eq-replayed (replayed i) f e = (i, refl, e)
>>=-eq-replayed failed f e = absurd (ground arith)
>>=-eq-replayed panicked f e = absurd (ground arith)

-- What holds of the number of each file.
abbrev pub AllFiles : (ℕ → Type 0) → List File → Type 0
AllFiles Q [] = Unit {0}
AllFiles Q (f ∷ fs) = Q f.seq × AllFiles Q fs

module _ (json : Json) (P : Map EntryState → Type 0) where
  records_keep :
      (seq : ℕ) (step : (c : Change) (i : Map EntryState) → P i → P (index_change c seq i))
      (recs : List DecodedRecord) (i j : Map EntryState)
      → P i
      → replay_records json seq recs i ≡ replayed j
      → P j
  unfolding replay_records
  records_keep seq step [] i j h e = let same : i ≡ j = ground arith in subst P same h
  records_keep seq step (rec ∷ recs) i j h e = elim (replay_record-cases json seq rec) [
    | inl stop ↦ absurd (ground (arith, stop i))
    | inr (none, does) ↦ records_keep seq step recs i j h (rw (does i) at e)
    | inr (some c, does) ↦
        records_keep seq step recs (index_change c seq i) j (step c i h) (rw (does i) at e)
  ]

  pub scan_keeps :
      (seq : ℕ) (step : (c : Change) (i : Map EntryState) → P i → P (index_change c seq i))
      (scan : Scan) (i j : Map EntryState)
      → P i
      → replay_scan json seq scan i ≡ replayed j
      → P j
  unfolding replay_scan
  scan_keeps seq step (Scan.records recs) i j h e = records_keep seq step recs i j h e
  scan_keeps seq step Scan.panics i j h e = absurd (ground arith)
  scan_keeps seq step Scan.out_of_fuel i j h e = absurd (ground arith)

  pub files_keep :
      (Q : ℕ → Type 0)
      (step : (seq : ℕ) (c : Change) (i : Map EntryState) → Q seq → P i → P (index_change c seq i))
      (fs : List File) (i j : Map EntryState)
      → AllFiles Q fs
      → P i
      → replay_files json fs i ≡ replayed j
      → P j
  unfolding replay_files replay_file
  files_keep Q step [] i j all h e = let same : i ≡ j = ground arith in subst P same h
  files_keep Q step (f ∷ fs) i j all h e =
      let (m, e₁, e₂) = >>=-eq-replayed (replay_file json f i) _ e in
      files_keep Q step fs m j all.1
        (scan_keeps f.seq (λ c k. step f.seq c k all.0) (decode_records f.bytes) i m h e₁) e₂

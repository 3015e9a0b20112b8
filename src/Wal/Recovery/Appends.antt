-- ===== src/Wal/Recovery/Appends.antt =====
-- The write loop of commitBatch (wal.go) on disk: each frame that is written adds its change to what
-- the files replay to.
use tallyd.Base.{
  ℕ, suc, ◌^◌, ◌<◌, ◌≡◌, refl, sym, ap, ◌∙◌, List, [], ◌∷◌, ◌++◌, length, take, Map, append_assoc,
  append-nil,
}
use tallyd.Wal.Record.{DecodedRecord, encode_frame, encode_frames, decode_records, records}
use tallyd.Wal.Record.RoundTrip.{AllFit, decode-encode, decode_torn_tail}
use tallyd.Wal.Log.{Segment, EntryState}
use tallyd.Wal.Commit.{
  Json, update_active, active_seq, segment_append, segment_sync, create_segment,
}
use tallyd.Wal.Replay.{
  File, Replay, replayed, failed, panicked, ◌>>=◌, replay_record, replay_records, replay_scan,
  replay_file, replay_files, files_of,
}
use tallyd.Wal.Invariant.{IsNonempty}
use tallyd.Wal.Recovery.{AllWhole, torn_files}

encode_frames-append :
    (rs : List DecodedRecord) (r : DecodedRecord)
    → encode_frames (rs ++ r ∷ []) ≡ encode_frames rs ++ encode_frame r.rec_type r.payload
unfolding encode_frames
encode_frames-append [] r = append-nil _
encode_frames-append (x ∷ rs) r =
    ap (λ bs. encode_frame x.rec_type x.payload ++ bs) (encode_frames-append rs r)
    ∙ sym (append_assoc (encode_frame x.rec_type x.payload) (encode_frames rs) _)

AllFit-snoc :
    (rs : List DecodedRecord) (r : DecodedRecord)
    → AllFit rs
    → suc (length r.payload) < 2 ^ 32
    → AllFit (rs ++ r ∷ [])
AllFit-snoc [] r f h = (h, tt)
AllFit-snoc (x ∷ rs) r f h = (f.0, AllFit-snoc rs r f.1 h)

bind_replayed : (r : Replay (Map EntryState)) → (r >>= replayed) ≡ r
bind_replayed (replayed i) = refl
bind_replayed failed = refl
bind_replayed panicked = refl

bind_assoc :
    (r : Replay (Map EntryState)) (f g : Map EntryState → Replay (Map EntryState))
    → ((r >>= f) >>= g) ≡ (r >>= λ i. f i >>= g)
bind_assoc (replayed i) f g = refl
bind_assoc failed f g = refl
bind_assoc panicked f g = refl

pub decode_records-nil : decode_records [] ≡ records []
unfolding encode_frames
decode_records-nil = decode-encode [] tt

module _ (json : Json) where
  replay_records-snoc :
      (seq : ℕ) (rs : List DecodedRecord) (r : DecodedRecord) (i : Map EntryState)
      → replay_records json seq (rs ++ r ∷ []) i
        ≡ (replay_records json seq rs i >>= replay_record json seq r)
  unfolding replay_records
  replay_records-snoc seq [] r i = bind_replayed (replay_record json seq r i)
  replay_records-snoc seq (x ∷ rs) r i =
      ap (λ f. replay_record json seq x i >>= f) (λ d j. replay_records-snoc seq rs r j d)
      ∙ sym (bind_assoc (replay_record json seq x i) _ _)

  -- The files of a segment list after one more frame in the active one.
  pub replay_files-append :
      (r : DecodedRecord) (ss : List Segment) (i : Map EntryState)
      → suc (length r.payload) < 2 ^ 32
      → IsNonempty ss
      → AllWhole (files_of ss)
      → replay_files json
          (files_of (update_active (segment_append (encode_frame r.rec_type r.payload)) ss))
          i
        ≡ (replay_files json (files_of ss) i >>= replay_record json (active_seq ss) r)
  unfolding replay_files replay_file replay_scan files_of update_active segment_append active_seq
  replay_files-append r [] i fit h w = absurd h
  replay_files-append r (s ∷ []) i fit h w =
      let (recs, whole, fits) = w.0 in
      rw
        (
          whole,
          ← encode_frames-append recs r,
          decode-encode (recs ++ r ∷ []) (AllFit-snoc recs r fits fit),
          decode-encode recs fits,
          replay_records-snoc s.seq recs r i,
        )
        (bind_replayed (replay_records json s.seq recs i >>= replay_record json s.seq r)
          ∙ ap (λ m. m >>= replay_record json s.seq r)
              (sym (bind_replayed (replay_records json s.seq recs i))))
  replay_files-append r (s ∷ t ∷ ss) i fit h w =
      let scan = replay_scan json s.seq (decode_records s.bytes) i in
      ap (λ f. scan >>= f) (λ d j. replay_files-append r (t ∷ ss) j fit tt w.1 d)
      ∙ sym (bind_assoc scan _ _)

  -- A crash while a frame is written: the files replay as if the write had not begun.
  pub replay_files-torn :
      (r : DecodedRecord) (cut : ℕ) (fs : List File) (i : Map EntryState)
      → suc (length r.payload) < 2 ^ 32
      → cut < length (encode_frame r.rec_type r.payload)
      → AllWhole fs
      → replay_files json (torn_files (take cut (encode_frame r.rec_type r.payload)) fs) i
        ≡ replay_files json fs i
  unfolding replay_files replay_file torn_files
  replay_files-torn r cut [] i fit h w = refl
  replay_files-torn r cut (f ∷ []) i fit h w =
      let (recs, whole, fits) = w.0 in
      rw (whole, decode_torn_tail recs r cut fits fit h, decode-encode recs fits)
  replay_files-torn r cut (f ∷ g ∷ fs) i fit h w =
      ap (λ k. replay_scan json f.seq (decode_records f.bytes) i >>= k)
        (λ d j. replay_files-torn r cut (g ∷ fs) j fit h w.1 d)

  -- A new, empty file changes nothing.
  pub replay_files-rotate :
      (n : ℕ) (ss : List Segment) (i : Map EntryState)
      → replay_files json (files_of (update_active segment_sync ss ++ create_segment n ∷ [])) i
        ≡ replay_files json (files_of ss) i
  unfolding replay_files replay_file replay_scan replay_records files_of update_active segment_sync
      create_segment
  replay_files-rotate n [] i = rw decode_records-nil
  replay_files-rotate n (s ∷ []) i =
      ap (λ k. replay_scan json s.seq (decode_records s.bytes) i >>= k)
        (λ d j. replay_files-rotate n [] j d)
  replay_files-rotate n (s ∷ t ∷ ss) i =
      ap (λ k. replay_scan json s.seq (decode_records s.bytes) i >>= k)
        (λ d j. replay_files-rotate n (t ∷ ss) j d)

  pub replay_files-sync :
      (ss : List Segment) (i : Map EntryState)
      → replay_files json (files_of (update_active segment_sync ss)) i
        ≡ replay_files json (files_of ss) i
  unfolding replay_files replay_file files_of update_active segment_sync
  replay_files-sync [] i = refl
  replay_files-sync (s ∷ []) i = refl
  replay_files-sync (s ∷ t ∷ ss) i =
      ap (λ k. replay_scan json s.seq (decode_records s.bytes) i >>= k)
        (λ d j. replay_files-sync (t ∷ ss) j d)

pub AllWhole-append :
    (r : DecodedRecord) (ss : List Segment)
    → suc (length r.payload) < 2 ^ 32
    → AllWhole (files_of ss)
    → AllWhole (files_of (update_active (segment_append (encode_frame r.rec_type r.payload)) ss))
unfolding files_of update_active segment_append
AllWhole-append r [] fit w = tt
AllWhole-append r (s ∷ []) fit w =
    let (recs, whole, fits) = w.0 in
    (
      (
        recs ++ r ∷ [],
        ap (λ bs. bs ++ encode_frame r.rec_type r.payload) whole
            ∙ sym (encode_frames-append recs r),
        AllFit-snoc recs r fits fit,
      ),
      tt,
    )
AllWhole-append r (s ∷ t ∷ ss) fit w = (w.0, AllWhole-append r (t ∷ ss) fit w.1)

pub AllWhole-rotate :
    (n : ℕ) (ss : List Segment)
    → AllWhole (files_of ss)
    → AllWhole (files_of (update_active segment_sync ss ++ create_segment n ∷ []))
unfolding files_of update_active segment_sync create_segment encode_frames
AllWhole-rotate n [] w = (([], refl, tt), tt)
AllWhole-rotate n (s ∷ []) w = (w.0, AllWhole-rotate n [] tt)
AllWhole-rotate n (s ∷ t ∷ ss) w = (w.0, AllWhole-rotate n (t ∷ ss) w.1)

pub AllWhole-sync :
    (ss : List Segment)
    → AllWhole (files_of ss)
    → AllWhole (files_of (update_active segment_sync ss))
unfolding files_of update_active segment_sync
AllWhole-sync [] w = w
AllWhole-sync (s ∷ []) w = w
AllWhole-sync (s ∷ t ∷ ss) w = (w.0, AllWhole-sync (t ∷ ss) w.1)

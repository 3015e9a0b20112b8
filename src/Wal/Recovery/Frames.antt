-- ===== src/Wal/Recovery/Frames.antt =====
-- A batch of requests whose failures leave no bytes (commitBatch in wal.go): what the files replay to.
use tallyd.Base.{
  ℕ, suc, ◌+◌, ◌^◌, ◌<◌, ◌≡◌, refl, sym, ap, subst, ◌∙◌, inl, inr, Option, none, some,
  if◌then◌else◌, List, [], ◌∷◌, ◌++◌, map, length, Map, arith, Bool-cases, append_assoc, append-nil,
  ltb,
}
use tallyd.Wal.Record.{encode_frame}
use tallyd.Wal.Log.{Segment, EntryState}
use tallyd.Wal.Commit.{
  Json, Change, Request, Faults, refuse, Outcome, Writing, update_active, active_size, active_seq,
  segment_append, segment_sync, create_segment, write_active, rotate, mark_synced, write_request,
  write_requests,
}
use tallyd.Wal.Replay.{replayed, ◌>>=◌, replay_record, replay_files, files_of}
use tallyd.Wal.Invariant.{IsNonempty}
use tallyd.Wal.Recovery.{
  JsonLaws, Framed, framed_event, framed_ack, LeavesNothing, Clean, index_change, AllWhole,
}
use tallyd.Wal.Recovery.Effects.{record_of, replay_record-Framed}
use tallyd.Wal.Recovery.Appends.{
  replay_files-append, replay_files-rotate, AllWhole-append, AllWhole-rotate,
}

frame_of :
    (json : Json) (r : Request) (fr : Framed json r)
    → r.frame ≡ encode_frame (record_of json r fr).rec_type (record_of json r fr).payload
frame_of json r (framed_event e ps payload c m fits f) = f
frame_of json r (framed_ack id provider d payload c m fits f) = f

pub fits_of :
    (json : Json) (r : Request) (fr : Framed json r)
    → suc (length (record_of json r fr).payload) < 2 ^ 32
fits_of json r (framed_event e ps payload c m fits f) = fits
fits_of json r (framed_ack id provider d payload c m fits f) = fits

-- Where the frame of a request went, if its write gave no error.
abbrev pub place : Outcome → Option ℕ
place o = if o.write_err then none else some o.seg_seq

abbrev pub places : List Outcome → List (Option ℕ)
places = map place

abbrev pub placed_change : Change → Option ℕ → Map EntryState → Map EntryState
placed_change c none i = i
placed_change c (some n) i = index_change c n i

-- The changes of a batch, each at the segment that its frame went to.
abbrev pub effects : List (Request × Faults) → List (Option ℕ) → Map EntryState → Map EntryState
effects [] ns i = i
effects (r ∷ rs) [] i = i
effects (r ∷ rs) (n ∷ ns) i = effects rs ns (placed_change r.0.change n i)

place-mark_synced : (o : Outcome) → place (mark_synced o) ≡ place o
unfolding mark_synced
place-mark_synced o = ground arith

places-mark : (os : List Outcome) → places (map mark_synced os) ≡ places os
places-mark [] = refl
places-mark (o ∷ os) = rw (place-mark_synced o, places-mark os) refl

places_snoc : (os : List Outcome) (o : Outcome) → places (os ++ o ∷ []) ≡ places os ++ place o ∷ []
places_snoc [] o = refl
places_snoc (p ∷ os) o = ap (λ l. place p ∷ l) (places_snoc os o)

-- A write that fails before its first byte.
files_of-append_nothing :
    (ss : List Segment) → files_of (update_active (segment_append []) ss) ≡ files_of ss
unfolding files_of update_active segment_append
files_of-append_nothing [] = refl
files_of-append_nothing (s ∷ []) = rw (append-nil s.bytes) refl
files_of-append_nothing (s ∷ t ∷ ss) =
    ap (λ l. record { seq = s.seq; bytes = s.bytes; durable = s.durable } ∷ l)
      (files_of-append_nothing (t ∷ ss))

IsNonempty-update :
    (f : Segment → Segment) (ss : List Segment) → IsNonempty ss → IsNonempty (update_active f ss)
unfolding update_active
IsNonempty-update f [] h = h
IsNonempty-update f (s ∷ []) h = tt
IsNonempty-update f (s ∷ t ∷ ss) h = tt

IsNonempty-snoc : (t : Segment) (ss : List Segment) → IsNonempty (ss ++ t ∷ [])
IsNonempty-snoc t [] = tt
IsNonempty-snoc t (s ∷ ss) = tt

-- What holds of a writer that has left whole frames only.
pub record IsClean (st : Writing) : Type 0 where
  pub nonempty : IsNonempty st.segments
  pub whole : AllWhole (files_of st.segments)

module _ (json : Json) (laws : JsonLaws json) where
  -- One turn: where the frame went, if it was written, and what the files replay to then.
  record Written (r : Request) (st st' : Writing) : Type 0 where
    clean : IsClean st'
    to : Option ℕ
    home : places st'.outcomes ≡ places st.outcomes ++ to ∷ []
    replays :
        (i j : Map EntryState)
        → replay_files json (files_of st.segments) i ≡ replayed j
        → replay_files json (files_of st'.segments) i ≡ replayed (placed_change r.change to j)

  write_active-whole :
      (r : Request) (fr : Framed json r) (st : Writing)
      → IsClean st
      → Written r st (write_active r.frame none st)
  unfolding write_active
  write_active-whole r fr st c =
      let rec = record_of json r fr in
      let fits = fits_of json r fr in
      let e = frame_of json r fr in
      record {
        clean = record {
          nonempty = IsNonempty-update _ st.segments c.nonempty;
          whole =
              subst (λ bs. AllWhole (files_of (update_active (segment_append bs) st.segments)))
                (sym e) (AllWhole-append rec st.segments fits c.whole);
        };
        to = some (active_seq st.segments);
        home = places_snoc st.outcomes _;
        replays = λ i j old.
            subst
              (λ bs.
                replay_files json (files_of (update_active (segment_append bs) st.segments)) i
                ≡ replayed (index_change r.change (active_seq st.segments) j))
              (sym e)
              (replay_files-append json rec st.segments i fits c.nonempty c.whole
                ∙ ap (λ m. m >>= replay_record json (active_seq st.segments) rec) old
                ∙ replay_record-Framed json laws r fr (active_seq st.segments) j);
      }

  write_active-nothing :
      (r : Request) (st : Writing) → IsClean st → Written r st (write_active r.frame (some 0) st)
  unfolding write_active
  write_active-nothing r st c = record {
    clean = record {
      nonempty = IsNonempty-update _ st.segments c.nonempty;
      whole = subst AllWhole (sym (files_of-append_nothing st.segments)) c.whole;
    };
    to = none;
    home = places_snoc st.outcomes _;
    replays =
        λ i j old. ap (λ fs. replay_files json fs i) (files_of-append_nothing st.segments) ∙ old;
  }

  write_active-Written :
      (r : Request) (faults : Faults) (fr : Framed json r) (st : Writing)
      → LeavesNothing faults
      → IsClean st
      → Written r st (write_active r.frame faults.write_fails st)
  write_active-Written r faults fr st (inl all) c = rw all (write_active-whole r fr st c)
  write_active-Written r faults fr st (inr nothing) c = rw nothing (write_active-nothing r st c)

  rotate-IsClean : (st : Writing) → IsClean st → IsClean (rotate st)
  unfolding rotate
  rotate-IsClean st c = record {
    nonempty =
        IsNonempty-snoc (create_segment st.next_seq) (update_active segment_sync st.segments);
    whole = AllWhole-rotate st.next_seq st.segments c.whole;
  }

  refuse-Written : (r : Request) (st : Writing) → IsClean st → Written r st (refuse st)
  unfolding refuse
  refuse-Written r st c = record {
    clean = record { nonempty = c.nonempty; whole = c.whole };
    to = none;
    home = places_snoc st.outcomes _;
    replays = λ i j old. old;
  }

  rotate-Written : (r : Request) (st st' : Writing) → Written r (rotate st) st' → Written r st st'
  unfolding rotate
  rotate-Written r st st' w = record {
    clean = w.clean;
    to = w.to;
    home = w.home ∙ ap (λ l. l ++ w.to ∷ []) (places-mark st.outcomes);
    replays = λ i j old. w.replays i j (replay_files-rotate json st.next_seq st.segments i ∙ old);
  }

  write_request-Written :
      (limit : ℕ) (r : Request) (faults : Faults) (fr : Framed json r) (st : Writing)
      → LeavesNothing faults
      → IsClean st
      → Written r st (write_request limit (r, faults) st)
  unfolding write_request
  write_request-Written limit r faults fr st traceless c =
      elim (Bool-cases (ltb limit (active_size st.segments + length r.frame))) [
        | inr room ↦ rw room (write_active-Written r faults fr st traceless c)
        | inl full ↦ elim (Bool-cases faults.rotate_fails) [
          | inl stuck ↦ rw (full, stuck) (refuse-Written r st c)
          | inr rotates ↦
              rw (full, rotates)
                (rotate-Written r st _
                  (write_active-Written r faults fr (rotate st) traceless (rotate-IsClean st c)))
        ]
      ]

  pub write_requests-effects :
      (limit : ℕ) (rs : List (Request × Faults)) (st : Writing)
      → Clean json rs
      → IsClean st
      → (ns : List (Option ℕ)) × IsClean (write_requests limit rs st)
        × (places (write_requests limit rs st).outcomes ≡ places st.outcomes ++ ns)
        × ((i j : Map EntryState)
            → replay_files json (files_of st.segments) i ≡ replayed j
            → replay_files json (files_of (write_requests limit rs st).segments) i
              ≡ replayed (effects rs ns j))
  unfolding write_requests
  write_requests-effects limit [] st clean c = ([], c, sym (append-nil _), λ i j e. e)
  write_requests-effects limit ((r, faults) ∷ rs) st (fr, traceless, clean) c =
      let w = write_request-Written limit r faults fr st traceless c in
      let (ns, c', home, replays) =
        write_requests-effects limit rs (write_request limit (r, faults) st) clean w.clean in
      (
        w.to ∷ ns,
        c',
        home ∙ ap (λ l. l ++ ns) w.home ∙ append_assoc (places st.outcomes) (w.to ∷ []) ns,
        λ i j e. replays i _ (w.replays i j e),
      )

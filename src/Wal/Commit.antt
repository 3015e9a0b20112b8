-- ===== src/Wal/Commit.antt =====
-- internal/wal/wal.go: Append and Ack up to `submit`, and the writer's commitBatch with rotate.
-- What the operating system may refuse is an argument, `Faults` for each request and one flag for
-- the fsync at the end of the batch.
use tallyd.Base.{
  ℕ, suc, ◌+◌, String, Bool, true, false, not, ◌&&◌, ◌||◌, Option, none, some, List, [], ◌∷◌, ◌++◌,
  map, ltb, if◌then◌else◌, pos, length, take,
}
use tallyd.Adapter.{Event, Disposition}
use tallyd.Wal.Record.{encode_frame, rec_type_event, rec_type_ack}
use tallyd.Wal.Log.{Wal, Segment, apply_append, apply_ack, gc_segments, total_bytes}

-- encoding/json on the two payloads. A marshalled payload unmarshals to what it was made from; the
-- replay does not look at the disposition of an ack.
pub record Json : Type 0 where
  pub marshal_event : Event → List String → Option (List ℕ)
  pub unmarshal_event : List ℕ → Option (Event × List String)
  pub marshal_ack : String → String → Disposition → Option (List ℕ)
  pub unmarshal_ack : List ℕ → Option (String × String)

-- What the `apply` closure of a request does.
pub data Change : Type 0 where
  appends : Event → List String → Change
  acks : String → String → Change

unfoldable pub apply_change : Change → ℕ → Wal → Wal
apply_change (appends event providers) seg_seq w = apply_append event providers seg_seq w
apply_change (acks id provider) seg_seq w = apply_ack id provider w

pub record Request : Type 0 where
  pub frame : List ℕ
  pub change : Change

pub data WalError : Type 0 where
  closed marshal_failed buffer_full : WalError

pub data Prepared : Type 0 where
  submitted : Request → Prepared
  rejected : WalError → Prepared

unfoldable pub prepare_frame : Wal → List ℕ → Change → Prepared
prepare_frame w frame change =
    if ltb 0 w.max_bytes && ltb w.max_bytes (total_bytes w + length frame)
    then rejected buffer_full
    else submitted (record { frame = frame; change = change })

unfoldable pub append_request : Option (List ℕ) → Wal → Change → Prepared
unfolding prepare_frame
append_request none w change = rejected marshal_failed
append_request (some payload) w change =
    prepare_frame w (encode_frame rec_type_event payload) change

-- Append, up to the submission of its request.
unfoldable pub prepare_append : Json → Wal → Event → List String → Prepared
unfolding append_request
prepare_append json w event providers =
    if w.closed
    then rejected closed
    else append_request (json.marshal_event event providers) w (appends event providers)

unfoldable pub ack_request : Option (List ℕ) → Change → Prepared
ack_request none change = rejected marshal_failed
ack_request (some payload) change =
    submitted (record { frame = encode_frame rec_type_ack payload; change = change })

-- Ack, up to the submission of its request. It has no size check.
unfoldable pub prepare_ack : Json → Wal → String → String → Disposition → Prepared
unfolding ack_request
prepare_ack json w id provider disposition =
    if w.closed
    then rejected closed
    else ack_request (json.marshal_ack id provider disposition) (acks id provider)

-- `rotate_fails`: its sync, its close or the new file's creation fails; the bytes then count as not
-- synced. `write_fails`: the write
-- stops with an error after so many bytes.
pub record Faults : Type 0 where
  pub rotate_fails : Bool
  pub write_fails : Option ℕ

-- The entries of writeErrs, segSeqs and synced for one request.
pub record Outcome : Type 0 where
  pub write_err : Bool
  pub seg_seq : ℕ
  pub synced : Bool

pub record Writing : Type 0 where
  pub segments : List Segment
  pub next_seq : ℕ
  pub outcomes : List Outcome

-- `w.segments[len(w.segments)-1]`: there is always a segment.
unfoldable pub update_active : (Segment → Segment) → List Segment → List Segment
update_active f [] = []
update_active f (s ∷ []) = f s ∷ []
update_active f (s ∷ t ∷ ss) = s ∷ update_active f (t ∷ ss)

unfoldable pub active_size : List Segment → ℕ
active_size [] = 0
active_size (s ∷ []) = s.size
active_size (s ∷ t ∷ ss) = active_size (t ∷ ss)

unfoldable pub active_seq : List Segment → ℕ
active_seq [] = 0
active_seq (s ∷ []) = s.seq
active_seq (s ∷ t ∷ ss) = active_seq (t ∷ ss)

unfoldable pub segment_append : List ℕ → Segment → Segment
segment_append data_ s = record s { bytes = s.bytes ++ data_; size = s.size + length data_ }

unfoldable pub segment_sync : Segment → Segment
segment_sync s = record s { durable = length s.bytes }

unfoldable pub create_segment : ℕ → Segment
create_segment seq = record { seq = seq; size = 0; ref_count = pos 0; bytes = []; durable = 0 }

-- What reaches the file of a write.
abbrev pub written : Option ℕ → List ℕ → List ℕ
written none frame = frame
written (some n) frame = take n frame

abbrev pub fails : Option ℕ → Bool
fails none = false
fails (some n) = true

unfoldable pub write_active : List ℕ → Option ℕ → Writing → Writing
unfolding segment_append
write_active frame fault st = record st {
  segments = update_active (segment_append (written fault frame)) st.segments;
  outcomes =
      st.outcomes
      ++ record { write_err = fails fault; seg_seq = active_seq st.segments; synced = false } ∷ [];
}

unfoldable pub mark_synced : Outcome → Outcome
mark_synced o = if o.write_err then o else record o { synced = true }

-- rotate, and the loop that marks the earlier requests of the batch.
unfoldable pub rotate : Writing → Writing
unfolding mark_synced segment_sync create_segment
rotate st = record {
  segments = update_active segment_sync st.segments ++ create_segment st.next_seq ∷ [];
  next_seq = suc st.next_seq;
  outcomes = map mark_synced st.outcomes;
}

unfoldable pub refuse : Writing → Writing
refuse st = record st {
  outcomes = st.outcomes ++ record { write_err = true; seg_seq = 0; synced = true } ∷ [];
}

-- One turn of the write loop.
unfoldable pub write_request : ℕ → Request × Faults → Writing → Writing
unfolding refuse
write_request max_segment_bytes (req, faults) st =
    if ltb max_segment_bytes (active_size st.segments + length req.frame)
    then (if faults.rotate_fails
        then refuse st
        else write_active req.frame faults.write_fails (rotate st))
    else write_active req.frame faults.write_fails st

unfoldable pub write_requests : ℕ → List (Request × Faults) → Writing → Writing
write_requests max_segment_bytes [] st = st
write_requests max_segment_bytes (r ∷ rs) st =
    write_requests max_segment_bytes rs (write_request max_segment_bytes r st)

unfoldable pub final_sync : Bool → List Segment → List Segment
unfolding segment_sync
final_sync sync_ok segments = if sync_ok then update_active segment_sync segments else segments

-- `err == nil` after the final sync.
abbrev pub succeeds : Bool → Outcome → Bool
succeeds sync_ok o = not o.write_err && (o.synced || sync_ok)

-- The second loop: the changes of the requests that are durable, and each caller's result.
unfoldable pub apply_requests :
    Bool → List (Request × Faults) → List Outcome → Wal → Wal × List Bool
unfolding apply_change
apply_requests sync_ok ((req, faults) ∷ rs) (o ∷ os) w =
    let fine = succeeds sync_ok o in
    let w' = if fine then apply_change req.change o.seg_seq w else w in
    let (w'', results) = apply_requests sync_ok rs os w' in (w'', fine ∷ results)
apply_requests sync_ok _ _ w = (w, [])

unfoldable pub write_batch : List (Request × Faults) → Wal → Writing
write_batch batch w =
    write_requests w.max_segment_bytes batch
      (record { segments = w.segments; next_seq = w.next_seq; outcomes = [] })

-- commitBatch: the new state, and for each request whether its caller gets a nil error.
unfoldable pub commit_batch : List (Request × Faults) → Bool → Wal → Wal × List Bool
unfolding write_batch
commit_batch batch sync_ok w =
    let st = write_batch batch w in
    let written_to = record w {
      segments = final_sync sync_ok st.segments;
      next_seq = st.next_seq;
    } in
    let (applied, results) = apply_requests sync_ok batch st.outcomes written_to in
    (gc_segments applied, results)

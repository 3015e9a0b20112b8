-- ===== src/Wal/Submission.antt =====
-- Append and Ack of wal.go up to submit: which requests reach the writer.
use tallyd.Base.{
  ℕ, ◌+◌, ◌^◌, ◌≤◌, ◌<◌, ◌≡◌, refl, sym, ap, ◌∙◌, subst, ◌⊎◌, inl, inr, String, false, ◌&&◌, Option,
  none, some, List, ltb, length, arith, Bool-cases,
}
use tallyd.Adapter.{Event}
use tallyd.Wal.Record.{encode_frame, rec_type_event}
use tallyd.Wal.Record.RoundTrip.{length-encode_frame}
use tallyd.Wal.Log.{Wal, total_bytes}
use tallyd.Wal.Commit.{
  Json, Change, appends, Request, submitted, prepare_frame, append_request, prepare_append,
}
use tallyd.Wal.Recovery.{Framed, framed_event}

-- The log may grow by the frame.
abbrev HasRoom : Wal → Request → Type 0
HasRoom w r = (w.max_bytes ≡ 0) ⊎ (total_bytes w + length r.frame ≤ w.max_bytes)

room : (max size : ℕ) → (ltb 0 max && ltb max size) ≡ false → (max ≡ 0) ⊎ (size ≤ max)
room max size h = ground arith

prepare_frame-submitted :
    (w : Wal) (frame : List ℕ) (change : Change) (r : Request)
    → prepare_frame w frame change ≡ submitted r
    → (record { frame = frame; change = change } ≡ r) × HasRoom w r
unfolding prepare_frame
prepare_frame-submitted w frame change r h =
    elim (Bool-cases (ltb 0 w.max_bytes && ltb w.max_bytes (total_bytes w + length frame))) [
      | inl full ↦ absurd (ground arith)
      | inr fits ↦
          let same : record { frame = frame; change = change } ≡ r = ground arith in
          (
            same,
            subst (λ x. HasRoom w x) same (room w.max_bytes (total_bytes w + length frame) fits),
          )
    ]

frame_length :
    (payload frame : List ℕ)
    → encode_frame rec_type_event payload ≡ frame
    → length frame ≡ 9 + length payload
frame_length payload frame e = ap length (sym e) ∙ length-encode_frame rec_type_event payload

append_request-submitted :
    (json : Json) (w : Wal) (e : Event) (ps : List String) (marshalled : Option (List ℕ))
    (r : Request)
    → json.marshal_event e ps ≡ marshalled
    → append_request marshalled w (appends e ps) ≡ submitted r
    → length r.frame < 8 + 2 ^ 32
    → Framed json r × HasRoom w r × (r.change ≡ appends e ps)
unfolding append_request
append_request-submitted json w e ps none r m h short = absurd (ground arith)
append_request-submitted json w e ps (some payload) r m h short =
    let (same, fits) =
      prepare_frame-submitted w (encode_frame rec_type_event payload) (appends e ps) r h in
    let frame = ap (λ (x : Request). x.frame) same in
    (
      framed_event e ps payload (sym (ap (λ (x : Request). x.change) same)) m
          (omega (arith, frame_length payload (r.frame) frame)) (sym frame),
      fits,
      sym (ap (λ (x : Request). x.change) same),
    )

-- What Append hands to the writer. If it submits a request, whose frame is shorter than 2^32 + 8
-- bytes, then the log is not closed; the request is the event's, framed as the replay expects it; and
-- the log has no size limit, or its counted size with the frame stays within the limit.
prepare_append_lem :
    (json : Json) (w : Wal) (e : Event) (ps : List String) (r : Request)
    → prepare_append json w e ps ≡ submitted r
    → length r.frame < 8 + 2 ^ 32
    → (w.closed ≡ false) × Framed json r × HasRoom w r × (r.change ≡ appends e ps)
unfolding prepare_append
prepare_append_lem json w e ps r h short = elim (Bool-cases w.closed) [
  | inl shut ↦ absurd (ground arith)
  | inr running ↦
      let submission : append_request (json.marshal_event e ps) w (appends e ps) ≡ submitted r =
        ground arith in
      let (framed, fits, change) =
        append_request-submitted json w e ps (json.marshal_event e ps) r refl submission short in
      (running, framed, fits, change)
]

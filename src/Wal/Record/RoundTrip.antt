-- ===== src/Wal/Record/RoundTrip.antt =====
-- The scan of record.go against the frames that were written: whole files, torn tails, and what a
-- scan cannot get past.
use tallyd.Base.{
  ℕ, zero, suc, ◌+◌, none, some, ◌^◌, ◌<◌, ◌≡◌, refl, ap, List, [], ◌∷◌, ◌++◌, arith, length,
  length-append, append_assoc, append-nil, take, ◌-◌, tests, ltb, Bool-cases, replicate, ◌%◌, subst,
  length-take-le, ◌≢◌, Option-cases, inl, inr,
}
use tallyd.Wal.Record.{
  get_uint32, decode_loop, put_uint32, checksum_ieee, encode_frame, encode_frames, DecodedRecord,
  Scan, records, panics, out_of_fuel, add_record, read_frame, read_full, decode_records,
}
use tallyd.Wal.Record.Reading.{
  read_frame-encode_frame, read_frame_short, checksum_ieee-lt, decode_records_step,
  decode_records_break, length-read_frame,
}

-- Every body (type byte and payload) fits the length word.
abbrev pub AllFit : List DecodedRecord → Type 0
AllFit [] = Unit {0}
AllFit (r ∷ rs) = (suc (length r.payload) < 2 ^ 32) × AllFit rs

-- Records in front of a scan.
abbrev pub prepend : List DecodedRecord → Scan → Scan
prepend [] scan = scan
prepend (r ∷ rs) scan = add_record (r.rec_type ∷ r.payload) (prepend rs scan)

prepend-records : (rs ss : List DecodedRecord) → prepend rs (records ss) ≡ records (rs ++ ss)
unfolding add_record
prepend-records [] ss = refl
prepend-records (r ∷ rs) ss = rw (prepend-records rs ss)

prepend-panics : (rs : List DecodedRecord) → prepend rs panics ≡ panics
unfolding add_record
prepend-panics [] = refl
prepend-panics (r ∷ rs) = rw (prepend-panics rs)

-- Whole frames are read back, whatever follows them.
pub decode_records-append :
    (rs : List DecodedRecord) (tail : List ℕ)
    → AllFit rs
    → decode_records (encode_frames rs ++ tail) ≡ prepend rs (decode_records tail)
unfolding encode_frames
decode_records-append [] tail fit = refl
decode_records-append (r ∷ rs) tail fit = rw (
  append_assoc (encode_frame r.rec_type r.payload) (encode_frames rs) tail,
  decode_records_step _ (r.rec_type ∷ r.payload) (encode_frames rs ++ tail)
      (read_frame-encode_frame r.rec_type r.payload (encode_frames rs ++ tail) fit.0),
  decode_records-append rs tail fit.1,
)

-- Nothing more is read behind a tail at which the scan stops.
stops :
    (rs : List DecodedRecord) (tail : List ℕ)
    → AllFit rs
    → read_frame tail ≡ none
    → decode_records (encode_frames rs ++ tail) ≡ records rs
stops rs tail fit e =
    rw (decode_records-append rs tail fit, decode_records_break tail e, prepend-records rs [])
      (ap records (append-nil rs))

read_frame-nil : read_frame [] ≡ none
unfolding read_frame read_full
read_frame-nil = refl

-- A file of whole frames, each with a body shorter than 2^32 bytes, decodes to exactly the records
-- that were encoded, in order.
pub decode-encode :
    (rs : List DecodedRecord) → AllFit rs → decode_records (encode_frames rs) ≡ records rs
decode-encode rs fit =
    subst (λ bs. decode_records bs ≡ records rs) (append-nil (encode_frames rs))
      (stops rs [] fit read_frame-nil)

take-header :
    (v crc k : ℕ) (bs : List ℕ)
    → take (8 + k) (put_uint32 v ++ (put_uint32 crc ++ bs))
      ≡ put_uint32 v ++ (put_uint32 crc ++ take k bs)
unfolding put_uint32
take-header v crc k bs =
    let e : 8 + k ≡ suc (suc (suc (suc (suc (suc (suc (suc k))))))) = omega arith in rw e

-- Eight bytes of a header, and then fewer bytes than it promises.
read_frame-torn :
    (r : DecodedRecord) (k : ℕ) (more : List ℕ)
    → suc (length r.payload) < 2 ^ 32
    → k + length more < suc (length r.payload)
    → read_frame (take (8 + k) (encode_frame r.rec_type r.payload) ++ more) ≡ none
unfolding encode_frame
read_frame-torn r k more fit short =
    let body = r.rec_type ∷ r.payload in
    let size : length body % 2 ^ 32 ≡ length body = omega arith in
    rw
      (
        take-header (length body % 2 ^ 32) (checksum_ieee body) k body,
        append_assoc (put_uint32 (length body % 2 ^ 32))
            (put_uint32 (checksum_ieee body) ++ take k body) more,
        append_assoc (put_uint32 (checksum_ieee body)) (take k body) more,
        size,
      )
      (read_frame_short (length body) (checksum_ieee body) (take k body ++ more) fit
        (checksum_ieee-lt body)
        (omega (arith, length-append (take k body) more, length-take-le k body)))

-- Less than a header.
read_frame-torn_header : (bs : List ℕ) → length bs < 8 → read_frame bs ≡ none
read_frame-torn_header bs h = elim (Option-cases (read_frame bs)) [
  | inl e ↦ e
  | inr (r, e) ↦ absurd (omega (arith, length-read_frame bs r.0 r.1 e))
]

pub length-encode_frame : (t : ℕ) (p : List ℕ) → length (encode_frame t p) ≡ 9 + length p
unfolding encode_frame put_uint32
length-encode_frame t p = omega arith

-- Bytes behind whole frames and the first 8 + k bytes of one more, whatever they hold, are never
-- decoded as long as they end before the torn frame would have ended and the bodies are shorter
-- than 2^32 bytes: the scan returns the whole records.
pub decode_behind_torn :
    (rs : List DecodedRecord) (torn : DecodedRecord) (k : ℕ) (more : List ℕ)
    → AllFit rs
    → suc (length torn.payload) < 2 ^ 32
    → k + length more < suc (length torn.payload)
    → decode_records
        (encode_frames rs ++ (take (8 + k) (encode_frame torn.rec_type torn.payload) ++ more))
      ≡ records rs
decode_behind_torn rs torn k more fit fits h = stops rs _ fit (read_frame-torn torn k more fits h)

-- A crash while the last frame is written leaves whole frames and a part of one more, cut anywhere
-- before its end. If all bodies are shorter than 2^32 bytes, the scan returns exactly the whole
-- records and drops the torn one without an error.
pub decode_torn_tail :
    (rs : List DecodedRecord) (torn : DecodedRecord) (cut : ℕ)
    → AllFit rs
    → suc (length torn.payload) < 2 ^ 32
    → cut < length (encode_frame torn.rec_type torn.payload)
    → decode_records (encode_frames rs ++ take cut (encode_frame torn.rec_type torn.payload))
      ≡ records rs
decode_torn_tail rs torn cut fit fits h =
    let frame = encode_frame torn.rec_type torn.payload in
    elim (Bool-cases (ltb cut 8)) [
      | inl early ↦
          stops rs (take cut frame) fit
            (read_frame-torn_header (take cut frame) (omega (tests, length-take-le cut frame)))
      | inr late ↦
          let k = cut - 8 in
          let split : cut ≡ 8 + k = ground arith in
          let bound : k + 0 < suc (length torn.payload) =
            omega (arith, length-encode_frame torn.rec_type torn.payload) in
          rw (split, ← append-nil (take (8 + k) frame))
            (decode_behind_torn rs torn k [] fit fits bound)
    ]

read_frame-zeros : (rest : List ℕ) → read_frame (replicate 8 0 ++ rest) ≡ some ([], rest)
unfolding read_frame read_full get_uint32 checksum_ieee
read_frame-zeros rest = refl

-- Eight zero bytes behind whole frames are no torn tail to the scan: the empty body has the
-- checksum zero, and the scan panics at `body[0]`, whatever follows. The bodies are shorter than
-- 2^32 bytes.
pub decode_zero_tail :
    (rs : List DecodedRecord) (rest : List ℕ)
    → AllFit rs
    → decode_records (encode_frames rs ++ (replicate 8 0 ++ rest)) ≡ panics
unfolding add_record
decode_zero_tail rs rest fit = rw (
  decode_records-append rs (replicate 8 0 ++ rest) fit,
  decode_records_step _ [] rest (read_frame-zeros rest),
  prepend-panics rs,
)

add_record_fueled :
    (body : List ℕ) (scan : Scan) → scan ≢ out_of_fuel → add_record body scan ≢ out_of_fuel
unfolding add_record
add_record_fueled [] scan h = ground arith
add_record_fueled (t ∷ p) (records rs) h = ground arith
add_record_fueled (t ∷ p) panics h = ground arith
add_record_fueled (t ∷ p) out_of_fuel h = h

scan-fueled : (f : ℕ) (bs : List ℕ) → length bs < f → decode_loop f bs ≢ out_of_fuel
unfolding decode_loop
scan-fueled zero bs h = absurd (omega arith)
scan-fueled (suc f) bs h = elim (Option-cases (read_frame bs)) [
  | inl e ↦ rw (e, decode_loop) (λ p. ground arith)
  | inr ((body, rest), e) ↦
      let shorter = length-read_frame bs body rest e in
      rw (e, decode_loop)
        (add_record_fueled body (decode_loop f rest) (scan-fueled f rest (omega arith)))
]

-- The scan ends on every file: the fuel that it is given is enough.
pub decode_records_total : (bs : List ℕ) → decode_records bs ≢ out_of_fuel
unfolding decode_records
decode_records_total bs = scan-fueled (suc (length bs)) bs (omega arith)

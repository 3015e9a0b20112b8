-- ===== src/Tests/Frames.antt =====
-- Frames on disk, on concrete bytes.
use tallyd.Base.{◌≡◌, ◌≢◌, refl, List, [], ◌∷◌, ◌++◌, replicate, arith}
use tallyd.Wal.Record.{
  DecodedRecord, checksum_ieee, encode_frames, decode_records, records, panics, out_of_fuel,
}
use tallyd.Wal.Record.RoundTrip.{AllFit, decode-encode, decode_zero_tail, decode_records_total}

-- The check value of CRC-32: the digits 1 to 9.
checksum_check : checksum_ieee (49 ∷ 50 ∷ 51 ∷ 52 ∷ 53 ∷ 54 ∷ 55 ∷ 56 ∷ 57 ∷ []) ≡ 0xcbf43926
unfolding checksum_ieee
checksum_check = refl

abbrev frame : DecodedRecord
frame = record { rec_type = 1; payload = 123 ∷ 125 ∷ [] }

abbrev two_frames : List DecodedRecord
two_frames = frame ∷ record { rec_type = 2; payload = [] } ∷ []

abbrev long_frame : DecodedRecord
long_frame = record { rec_type = 1; payload = replicate 20 65 }

two_frames-AllFit : AllFit two_frames
two_frames-AllFit = (omega arith, (omega arith, tt))

decode-encode_example : decode_records (encode_frames two_frames) ≡ records two_frames
decode-encode_example = decode-encode two_frames two_frames-AllFit

decode_zero_tail_example :
    decode_records (encode_frames two_frames ++ (replicate 8 0 ++ (0 ∷ 0 ∷ []))) ≡ panics
decode_zero_tail_example = decode_zero_tail two_frames (0 ∷ 0 ∷ []) two_frames-AllFit

decode_records_total_example : decode_records (0 ∷ 0 ∷ 0 ∷ 9 ∷ []) ≢ out_of_fuel
decode_records_total_example = decode_records_total (0 ∷ 0 ∷ 0 ∷ 9 ∷ [])

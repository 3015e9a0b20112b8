-- ===== src/Wal/Record.antt =====
-- internal/wal/record.go: the frame of one record on disk, and the scan of a segment file.
-- A byte is a number below 256. `crc32.ChecksumIEEE` of Go's standard library is written out.
pub mod Reading
pub mod RoundTrip
use tallyd.Base.{
  ℕ, zero, suc, ◌+◌, ◌*◌, ◌/◌, ◌%◌, ◌^◌, Bool, true, false, not, Option, none, some, List, [], ◌∷◌,
  ◌++◌, ◌==◌, if◌then◌else◌, length, bit_and, bit_xor,
}

abbrev pub rec_type_event : ℕ
rec_type_event = 1

abbrev pub rec_type_ack : ℕ
rec_type_ack = 2

-- binary.BigEndian.PutUint32 of a value that fits
pub put_uint32 : ℕ → List ℕ
put_uint32 v = (v / 16777216 % 256) ∷ (v / 65536 % 256) ∷ (v / 256 % 256) ∷ (v % 256) ∷ []

-- binary.BigEndian.Uint32 of a buffer of four bytes
pub get_uint32 : List ℕ → ℕ
get_uint32 (a ∷ b ∷ c ∷ d ∷ _) = a * 16777216 + b * 65536 + c * 256 + d
get_uint32 _ = 0

-- One bit, and one byte, of the reflected CRC-32 with the polynomial 0xedb88320.
crc_bit : ℕ → ℕ
crc_bit c = if bit_and c 1 == 1 then bit_xor (c / 2) 0xedb88320 else c / 2

crc_bits : ℕ → ℕ → ℕ
crc_bits zero c = c
crc_bits (suc n) c = crc_bits n (crc_bit c)

crc_bytes : ℕ → List ℕ → ℕ
crc_bytes c [] = c
crc_bytes c (b ∷ bs) = crc_bytes (crc_bits 8 (bit_xor c b)) bs

-- A uint32, hence the remainder.
unfoldable pub checksum_ieee : List ℕ → ℕ
unfolding crc_bit crc_bits crc_bytes
checksum_ieee bs = bit_xor (crc_bytes 0xffffffff bs) 0xffffffff % 2 ^ 32

-- [4 bytes length][4 bytes crc][type byte][payload]; `uint32(len(body))` wraps.
unfoldable pub encode_frame : ℕ → List ℕ → List ℕ
encode_frame rec_type payload =
    let body = rec_type ∷ payload in
    put_uint32 (length body % 2 ^ 32) ++ (put_uint32 (checksum_ieee body) ++ body)

pub record DecodedRecord : Type 0 where
  pub rec_type : ℕ
  pub payload : List ℕ

-- io.ReadFull: the bytes read and those left, or an error at a short input.
unfoldable pub read_full : ℕ → List ℕ → Option (List ℕ × List ℕ)
read_full zero bs = some ([], bs)
read_full (suc n) [] = none
read_full (suc n) (b ∷ bs) = elim (read_full n bs) [
  | none ↦ none
  | some (got, rest) ↦ some (b ∷ got, rest)
]

infixl 5 ◌>>=◌
abbrev ◌>>=◌ : {A B : Type 0} → Option A → (A → Option B) → Option B
none >>= f = none
some a >>= f = f a

-- One turn of the loop up to the checksum test: the body and what follows, or `break`.
unfoldable pub read_frame : List ℕ → Option (List ℕ × List ℕ)
read_frame bs = do
  (len_buf, after_len) ← read_full 4 bs
  (crc_buf, after_crc) ← read_full 4 after_len
  (body, rest) ← read_full (get_uint32 len_buf) after_crc
  if checksum_ieee body == get_uint32 crc_buf then some (body, rest) else none

-- The result of the scan. `panics` is the runtime panic of `body[0]` on an empty body.
pub data Scan : Type 0 where
  records : List DecodedRecord → Scan
  panics : Scan
  out_of_fuel : Scan

unfoldable pub add_record : List ℕ → Scan → Scan
add_record [] scan = panics
add_record (t ∷ p) (records rs) = records (record { rec_type = t; payload = p } ∷ rs)
add_record (t ∷ p) panics = panics
add_record (t ∷ p) out_of_fuel = out_of_fuel

unfoldable pub decode_loop : ℕ → List ℕ → Scan
decode_loop zero bs = out_of_fuel
decode_loop (suc fuel) bs = elim (read_frame bs) [
  | none ↦ records []
  | some (body, rest) ↦ add_record body (decode_loop fuel rest)
]

-- Every turn reads at least eight bytes, so the length of the file is fuel enough.
unfoldable pub decode_records : List ℕ → Scan
decode_records bs = decode_loop (suc (length bs)) bs

-- The file that holds these records, one frame after the other.
unfoldable pub encode_frames : List DecodedRecord → List ℕ
encode_frames [] = []
encode_frames (r ∷ rs) = encode_frame r.rec_type r.payload ++ encode_frames rs

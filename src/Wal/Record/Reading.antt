-- ===== src/Wal/Record/Reading.antt =====
-- Reading a frame: what `read_full` and `read_frame` return, and that fuel does not matter.
use tallyd.Base.{
  ℕ, zero, suc, ◌+◌, ◌%◌, ◌^◌, ◌≤◌, ◌<◌, ◌≡◌, refl, ap, inl, inr, Option, none, some, List, [], ◌∷◌,
  ◌++◌, arith, ◌==◌, length, append_assoc, Option-cases, ==_refl, if◌then◌else◌,
}
use tallyd.Wal.Record.{
  put_uint32, get_uint32, checksum_ieee, encode_frame, read_full, read_frame, add_record, records,
  decode_loop, decode_records, ◌>>=◌,
}

pub read_full-append : (xs ys : List ℕ) → read_full (length xs) (xs ++ ys) ≡ some (xs, ys)
unfolding read_full
read_full-append [] ys = refl
read_full-append (x ∷ xs) ys = rw (read_full-append xs ys)

pub read_full_short : (n : ℕ) (bs : List ℕ) → length bs < n → read_full n bs ≡ none
unfolding read_full
read_full_short zero bs h = absurd (omega arith)
read_full_short (suc n) [] h = refl
read_full_short (suc n) (b ∷ bs) h = rw (read_full_short n bs (omega arith))

-- A read takes bytes away from the front.
pub length-read_full :
    (n : ℕ) (bs got rest : List ℕ) → read_full n bs ≡ some (got, rest) → length bs ≡ n + length rest
unfolding read_full
length-read_full zero bs got rest h = ground arith
length-read_full (suc n) [] got rest h = ground arith
length-read_full (suc n) (b ∷ bs) got rest h = elim (Option-cases (read_full n bs)) [
  | inl e ↦ absurd (ground arith)
  | inr ((g, r), e) ↦ ground (arith, length-read_full n bs g r e)
]

-- The words of the header come back as they were written.
pub get-put_uint32 : (v : ℕ) → v < 2 ^ 32 → get_uint32 (put_uint32 v) ≡ v
unfolding get_uint32 put_uint32
get-put_uint32 v h = omega arith

pub checksum_ieee-lt : (bs : List ℕ) → checksum_ieee bs < 2 ^ 32
unfolding checksum_ieee
checksum_ieee-lt bs = omega arith

-- What is left to do once the two words of the header are known.
abbrev pub read_body : ℕ → ℕ → List ℕ → Option (List ℕ × List ℕ)
read_body n crc bs =
    read_full n bs >>= λ (body, rest). if checksum_ieee body == crc then some (body, rest) else none

pub read_frame-header :
    (v crc : ℕ) (bs : List ℕ)
    → v < 2 ^ 32
    → crc < 2 ^ 32
    → read_frame (put_uint32 v ++ (put_uint32 crc ++ bs)) ≡ read_body v crc bs
unfolding read_frame put_uint32 read_full
read_frame-header v crc bs hv hc = rw (get-put_uint32 v hv, get-put_uint32 crc hc)

pub put_uint32-append :
    (v : ℕ) (xs ys : List ℕ) → (put_uint32 v ++ xs) ++ ys ≡ put_uint32 v ++ (xs ++ ys)
put_uint32-append v xs ys = append_assoc (put_uint32 v) xs ys

-- A frame whose body fits a uint32 is read back whole.
pub read_frame-encode_frame :
    (t : ℕ) (p rest : List ℕ)
    → suc (length p) < 2 ^ 32
    → read_frame (encode_frame t p ++ rest) ≡ some (t ∷ p, rest)
unfolding encode_frame
read_frame-encode_frame t p rest h =
    let body = t ∷ p in
    let size : length body % 2 ^ 32 ≡ length body = omega arith in
    rw (
      append_assoc (put_uint32 (length body % 2 ^ 32)) (put_uint32 (checksum_ieee body) ++ body)
          rest,
      append_assoc (put_uint32 (checksum_ieee body)) body rest,
      size,
      read_frame-header (length body) (checksum_ieee body) (body ++ rest) h (checksum_ieee-lt body),
      read_full-append body rest,
      ==_refl (checksum_ieee body),
    )

-- A header that promises more than the file holds ends the scan.
pub read_frame_short :
    (v crc : ℕ) (bs : List ℕ)
    → v < 2 ^ 32
    → crc < 2 ^ 32
    → length bs < v
    → read_frame (put_uint32 v ++ (put_uint32 crc ++ bs)) ≡ none
read_frame_short v crc bs hv hc h = rw (read_frame-header v crc bs hv hc, read_full_short v bs h)

-- What a chain that returned has returned on its way.
>>=-eq-some :
    {A B : Type 0} (m : Option A) (f : A → Option B) {b : B}
    → (m >>= f) ≡ some b
    → (a : A) × (m ≡ some a) × (f a ≡ some b)
>>=-eq-some none f h = cc
>>=-eq-some (some a) f h = (a, refl, h)

-- A frame takes at least eight bytes.
pub length-read_frame :
    (bs body rest : List ℕ) → read_frame bs ≡ some (body, rest) → 8 + length rest ≤ length bs
unfolding read_frame
length-read_frame bs body rest h =
    let (a, e₁, h₁) = >>=-eq-some (read_full 4 bs) _ h in
    let (b, e₂, h₂) = >>=-eq-some (read_full 4 a.1) _ h₁ in
    let (c, e₃, h₃) = >>=-eq-some (read_full (get_uint32 a.0) b.1) _ h₂ in
    ground (
      arith,
      length-read_full 4 bs a.0 a.1 e₁,
      length-read_full 4 a.1 b.0 b.1 e₂,
      length-read_full (get_uint32 a.0) b.1 c.0 c.1 e₃,
    )

-- The fuel does not matter once it exceeds the length.
pub decode_loop_fuel :
    (f g : ℕ) (bs : List ℕ) → length bs < f → length bs < g → decode_loop f bs ≡ decode_loop g bs
unfolding decode_loop
decode_loop_fuel zero g bs hf hg = absurd (omega arith)
decode_loop_fuel (suc f) zero bs hf hg = absurd (omega arith)
decode_loop_fuel (suc f) (suc g) bs hf hg = elim (Option-cases (read_frame bs)) [
  | inl e ↦ rw (e, decode_loop)
  | inr ((body, rest), e) ↦
      let shorter = length-read_frame bs body rest e in
      rw (e, decode_loop)
        (ap (add_record body) (decode_loop_fuel f g rest (omega arith) (omega arith)))
]

-- The loop one turn at a time, without fuel.
pub decode_records_break : (bs : List ℕ) → read_frame bs ≡ none → decode_records bs ≡ records []
unfolding decode_records decode_loop
decode_records_break bs e = rw (decode_records, e, decode_loop)

pub decode_records_step :
    (bs body rest : List ℕ)
    → read_frame bs ≡ some (body, rest)
    → decode_records bs ≡ add_record body (decode_records rest)
unfolding decode_records decode_loop
decode_records_step bs body rest e =
    let shorter = length-read_frame bs body rest e in
    rw (decode_records, e, decode_loop)
      (ap (add_record body)
        (decode_loop_fuel (length bs) (suc (length rest)) rest (omega arith) (omega arith)))

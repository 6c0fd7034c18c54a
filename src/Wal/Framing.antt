-- ===== src/Wal/Framing.antt =====
-- Framing: what is written is read back, and what a crash leaves of it is seen to be torn.
use ryuk_dpq.Base.{
  ℕ, zero, suc, ◌+◌, ◌/◌, ◌%◌, ◌^◌, ◌<◌, ◌≤◌, ◌≡◌, refl, ap, true, false, List, ◌++◌, ◌==◌, ==_iff,
  ltb, if◌then◌else◌, length, take, arith, take-append, drop-append, length-append, length-take,
}
use ryuk_dpq.Wal.Record.{
  max_record_bytes, checksum, put_uint32, uint32, encode, eof, torn, record_read, read_body,
  read_record,
}

uint32_bytes :
    (n : ℕ)
    → n < 2 ^ 32
    → uint32 (n % 256) (n / 256 % 256) (n / 65536 % 256) (n / 16777216 % 256) ≡ n
unfolding uint32
uint32_bytes n h = omega arith

checksum-lt : (bs : List ℕ) → checksum bs < 2 ^ 32
unfolding checksum
checksum-lt bs = omega arith

read_body_whole :
    (kind : ℕ) (body rest : List ℕ)
    → length body ≤ max_record_bytes
    → read_body (length body) (checksum body) kind (body ++ rest) ≡ record_read kind body rest
unfolding read_body
read_body_whole kind body rest h =
    let small : ltb max_record_bytes (length body) ≡ false = ground arith in
    let whole : ltb (length (body ++ rest)) (length body) ≡ false =
      ground (arith, length-append body rest) in
    let right : (checksum body == checksum body) ≡ true = (==_iff _ _).1 refl in
    rw (small, whole, take-append body rest, drop-append body rest, right) refl

-- A record of at most the greatest size is read back as it was written, whatever follows it.
pub read_record-encode :
    (kind : ℕ) (body rest : List ℕ)
    → length body ≤ max_record_bytes
    → read_record (encode kind body ++ rest) ≡ record_read kind body rest
unfolding read_record encode put_uint32
read_record-encode kind body rest h =
    let n : length body % 2 ^ 32 ≡ length body = omega arith in
    let size : length body < 2 ^ 32 = omega arith in
    rw (n, uint32_bytes (length body) size, uint32_bytes (checksum body) (checksum-lt body))
      (read_body_whole kind body rest h)

read_body_short :
    (kind : ℕ) (body : List ℕ) (k : ℕ)
    → length body ≤ max_record_bytes
    → k < length body
    → read_body (length body) (checksum body) kind (take k body) ≡ torn
unfolding read_body
read_body_short kind body k h p =
    let small : ltb max_record_bytes (length body) ≡ false = ground arith in
    let short : ltb (length (take k body)) (length body) ≡ true =
      ground (arith, length-take k body (omega arith)) in
    rw (small, short) refl

-- Any beginning of a record, less than the whole, is a clean end if it is empty and torn if not.
pub read_record_torn :
    (kind : ℕ) (body : List ℕ) (k : ℕ)
    → length body ≤ max_record_bytes
    → k < length (encode kind body)
    → read_record (take k (encode kind body)) ≡ (if k == 0 then eof else torn)
unfolding read_record encode put_uint32
read_record_torn kind body zero h p = refl
read_record_torn kind body (suc zero) h p = refl
read_record_torn kind body (suc (suc zero)) h p = refl
read_record_torn kind body (suc (suc (suc zero))) h p = refl
read_record_torn kind body (suc (suc (suc (suc zero)))) h p = refl
read_record_torn kind body (suc (suc (suc (suc (suc zero))))) h p = refl
read_record_torn kind body (suc (suc (suc (suc (suc (suc zero)))))) h p = refl
read_record_torn kind body (suc (suc (suc (suc (suc (suc (suc zero))))))) h p = refl
read_record_torn kind body (suc (suc (suc (suc (suc (suc (suc (suc zero)))))))) h p = refl
read_record_torn kind body (suc (suc (suc (suc (suc (suc (suc (suc (suc k))))))))) h p =
    let n : length body % 2 ^ 32 ≡ length body = omega arith in
    let size : length body < 2 ^ 32 = omega arith in
    let short : k < length body = omega (arith, ap (λ x. x + 9) n) in
    let begun : (suc (suc (suc (suc (suc (suc (suc (suc (suc k)))))))) == 0) ≡ false =
      ground arith in
    rw (n, uint32_bytes (length body) size, uint32_bytes (checksum body) (checksum-lt body), begun)
      (read_body_short kind body k h short)

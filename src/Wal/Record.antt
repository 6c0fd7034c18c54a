-- ===== src/Wal/Record.antt =====
-- backend/queue/repo/walfile/record.go: how a record is framed in the file. A file is its bytes. The
-- JSON of the payloads is a parameter of Wal/Replay.antt; crc32.ChecksumIEEE is modelled as its
-- definition.
use Prim.Native.Nat.{bit_xor}
use ryuk_dpq.Base.{
  ℕ, zero, suc, ◌+◌, ◌*◌, ◌/◌, ◌%◌, ◌^◌, not, List, [], ◌∷◌, ◌++◌, ◌==◌, ltb, if◌then◌else◌, length,
  take, drop,
}

abbrev pub kind_enqueue : ℕ
kind_enqueue = 1

abbrev pub kind_attempt : ℕ
kind_attempt = 2

abbrev pub kind_terminal : ℕ
kind_terminal = 3

-- Length, checksum and kind.
abbrev pub header_len : ℕ
header_len = 9

abbrev pub max_record_bytes : ℕ
max_record_bytes = 2 ^ 24

-- `n` steps of the reflected polynomial.
crc_shift : ℕ → ℕ → ℕ
crc_shift zero c = c
crc_shift (suc n) c = crc_shift n (if c % 2 == 1 then bit_xor (c / 2) 0xedb88320 else c / 2)

crc_write : ℕ → List ℕ → ℕ
unfolding crc_shift
crc_write c [] = c
crc_write c (b ∷ bs) = crc_write (crc_shift 8 (bit_xor c b)) bs

unfoldable pub checksum : List ℕ → ℕ
unfolding crc_write
checksum bs = bit_xor (crc_write 0xffffffff bs) 0xffffffff % 2 ^ 32

-- binary.LittleEndian: PutUint32 of a uint32, and Uint32.
unfoldable pub put_uint32 : ℕ → List ℕ
put_uint32 n = n % 256 ∷ n / 256 % 256 ∷ n / 65536 % 256 ∷ n / 16777216 % 256 ∷ []

unfoldable pub uint32 : ℕ → ℕ → ℕ → ℕ → ℕ
uint32 a b c d = a + b * 256 + c * 65536 + d * 16777216

-- The frame of a body that has been marshalled.
unfoldable pub encode : ℕ → List ℕ → List ℕ
encode kind body = put_uint32 (length body % 2 ^ 32) ++ (put_uint32 (checksum body) ++ kind ∷ body)

-- What a read finds: a clean end, a torn record, or a record and the bytes after it.
pub data Read : Type 0 where
  eof : Read
  torn : Read
  record_read : ℕ → List ℕ → List ℕ → Read

unfoldable pub read_body : ℕ → ℕ → ℕ → List ℕ → Read
read_body n sum kind rest =
    if ltb max_record_bytes n
    then torn
    else if ltb (length rest) n
    then torn
    else if not (checksum (take n rest) == sum)
    then torn
    else record_read kind (take n rest) (drop n rest)

-- No byte is the clean end; fewer than a header is a torn one.
unfoldable pub read_record : List ℕ → Read
read_record [] = eof
read_record (n0 ∷ n1 ∷ n2 ∷ n3 ∷ s0 ∷ s1 ∷ s2 ∷ s3 ∷ kind ∷ rest) =
    read_body (uint32 n0 n1 n2 n3) (uint32 s0 s1 s2 s3) kind rest
read_record (b ∷ bs) = torn

-- ===== src/ChunkPacketParser/Safety.antt =====
-- What a client of ChunkPacketParser::Parse (TransferCore/ChunkPacketParser.cpp) may rely on.
use transfer_udt.Common.{
  ℕ, ◌+◌, ◌-◌, ◌^◌, ◌≤◌, ◌<◌, ◌≡◌, ◌≢◌, refl, sym, ap, ◌∙◌, true, false, List, [], ◌∷◌, ◌++◌,
  length, arith, All, length-append, nil_of_length, append-nil,
}
use transfer_udt.Common.Int.{negsuc}
use transfer_udt.Common.Bytes.{
  Bytes, IsByte, codes, bytes_eq, bytes_eq_iff, uint32_of, uint32_bytes, length-uint32_bytes,
}
use transfer_udt.ChunkMetadata.{ChunkMetadata}
use transfer_udt.ChunkPacketParser.Reads.{ok}
use transfer_udt.ChunkPacketParser.Paths.{
  PathOps, is_safe_filename, is_safe_relative_directory, has_control_chars, has_any_of, mem_byte,
  reserved_chars, max_filename_len, has_bad_segment,
}
use transfer_udt.ChunkPacketParser.Packet.{
  Message, IsAcceptable, content, encode, store, safe_filename_length, content-le-max,
}
use transfer_udt.ChunkPacketParser.RoundTrip.{parse_inv, parse-accepts}
use transfer_udt.ChunkPacketParser.{parse, max_chunk_size_bytes, max_file_size_bytes}

-- No control character, no separator, no drive colon, no wildcard.
abbrev pub IsPlain : ℕ → Type 0
IsPlain ch = (32 ≤ ch) × (mem_byte ch reserved_chars ≡ false)

IsPlain-chars :
    (s : Bytes) → has_control_chars s ≡ false → has_any_of reserved_chars s ≡ false → All IsPlain s
unfolding has_control_chars has_any_of
IsPlain-chars [] p q = tt
IsPlain-chars (ch ∷ rest) p q =
    ((ground arith, ground arith), IsPlain-chars rest (ground arith) (ground arith))

safe_tests :
    (fs : PathOps) (s : Bytes)
    → is_safe_filename fs s ≡ true
    → (has_control_chars s ≡ false)
      × (has_any_of reserved_chars s ≡ false)
      × (bytes_eq (fs.lexically_normal s) (codes ".") ≡ false)
      × (bytes_eq (fs.lexically_normal s) (codes "..") ≡ false)
unfolding is_safe_filename
safe_tests fs s h = (ground arith, ground arith, ground arith, ground arith)

not_named :
    (fs : PathOps) (s name : Bytes)
    → fs.lexically_normal name ≡ name
    → bytes_eq (fs.lexically_normal s) name ≡ false
    → s ≢ name
not_named fs s name n h e =
    cc ((bytes_eq_iff (fs.lexically_normal s) name).1 (ap fs.lexically_normal e ∙ n))

-- A path element that descends.
abbrev pub IsInner : Bytes → Type 0
IsInner segment = (0 < length segment) × (segment ≢ codes ".") × (segment ≢ codes "..")

IsInner-segments : (l : List Bytes) → has_bad_segment l ≡ false → All IsInner l
unfolding has_bad_segment
IsInner-segments [] h = tt
IsInner-segments (s ∷ rest) h = (
  (
    ground arith,
    (λ e. cc ((bytes_eq_iff s (codes ".")).1 e, not_dot)),
    (λ e. cc ((bytes_eq_iff s (codes "..")).1 e, not_dots)),
  ),
  IsInner-segments rest (ground arith),
)
  where
    not_dot : bytes_eq s (codes ".") ≡ false
    not_dot = ground arith

    not_dots : bytes_eq s (codes "..") ≡ false
    not_dots = ground arith

directory_tests :
    (fs : PathOps) (s : Bytes)
    → is_safe_relative_directory fs s ≡ true
    → 0 < length s
    → (fs.has_root_name s ≡ false)
      × (fs.has_root_directory s ≡ false)
      × (fs.is_absolute s ≡ false)
      × (has_bad_segment (fs.elements s) ≡ false)
unfolding is_safe_relative_directory
directory_tests fs s h p = (ground arith, ground arith, ground arith, ground arith)

-- The name under which the server stores an accepted chunk has 1 to 255 characters, none of them a
-- control character or one of <>:"/\|?*, and is neither "." nor "..", where the path library
-- leaves those two names as they are when it normalises them.
pub parse-filename_confined :
    (fs : PathOps) (buffer : Bytes) (c c' : ChunkMetadata) (o' : ℕ)
    → fs.lexically_normal (codes ".") ≡ codes "."
    → fs.lexically_normal (codes "..") ≡ codes ".."
    → All IsByte buffer
    → parse fs buffer c ≡ ok tt o' c'
    → (0 < length c'.filename)
      × (length c'.filename ≤ max_filename_len)
      × All IsPlain c'.filename
      × (c'.filename ≢ codes ".")
      × (c'.filename ≢ codes "..")
parse-filename_confined fs buffer c c' o' dot dots b h =
    let (_, (m, v, _, s)) = parse_inv fs buffer c b h in
    let name : m.filename ≡ c'.filename = ap (λ (x : ChunkMetadata). x.filename) s in
    let safe : is_safe_filename fs c'.filename ≡ true = rw name at v.safe_filename in
    let (control, reserved, ne_dot, ne_dots) = safe_tests fs c'.filename safe in
    let (lo, hi) = safe_filename_length fs c'.filename safe in
    (
      lo,
      hi,
      IsPlain-chars c'.filename control reserved,
      not_named fs c'.filename (codes ".") dot ne_dot,
      not_named fs c'.filename (codes "..") dots ne_dots,
    )

-- A directory that an accepted chunk names is empty, or it is relative and each of its elements is
-- non-empty and neither "." nor "..": it cannot lead out of the client's folder.
pub parse-directory_confined :
    (fs : PathOps) (buffer : Bytes) (c c' : ChunkMetadata) (o' : ℕ)
    → All IsByte buffer
    → parse fs buffer c ≡ ok tt o' c'
    → 0 < length c'.directory
    → (fs.has_root_name c'.directory ≡ false)
      × (fs.has_root_directory c'.directory ≡ false)
      × (fs.is_absolute c'.directory ≡ false)
      × All IsInner (fs.elements c'.directory)
parse-directory_confined fs buffer c c' o' b h p =
    let (_, (m, v, _, s)) = parse_inv fs buffer c b h in
    let dir : m.directory ≡ c'.directory = ap (λ (x : ChunkMetadata). x.directory) s in
    let safe : is_safe_relative_directory fs c'.directory ≡ true = rw dir at v.safe_directory in
    let (name, root, absolute, segments) = directory_tests fs c'.directory safe p in
    (name, root, absolute, IsInner-segments (fs.elements c'.directory) segments)

-- The bytes of an accepted chunk are 1 to 4 MiB, their recorded size is their number, and they lie
-- within a file whose declared size is at most 100 GiB.
pub parse-data_within_file :
    (fs : PathOps) (buffer : Bytes) (c c' : ChunkMetadata) (o' : ℕ)
    → All IsByte buffer
    → parse fs buffer c ≡ ok tt o' c'
    → (c'.data_size ≡ length c'.chunk_data)
      × (0 < c'.data_size)
      × (c'.data_size ≤ max_chunk_size_bytes)
      × (c'.chunk_offset + c'.data_size ≤ c'.total_file_size)
      × (c'.total_file_size ≤ max_file_size_bytes)
parse-data_within_file fs buffer c c' o' b h =
    let (_, (m, v, _, s)) = parse_inv fs buffer c b h in
    let size = ap (λ (x : ChunkMetadata). x.data_size) s in
    let offset = ap (λ (x : ChunkMetadata). x.chunk_offset) s in
    let total = ap (λ (x : ChunkMetadata). x.total_file_size) s in
    (
      sym size ∙ ap (λ (x : ChunkMetadata). length x.chunk_data) s,
      omega (arith, size, v.good_data),
      omega (arith, size, v.good_data),
      omega (arith, size, offset, total, v.good_data),
      omega (arith, total, v.file_not_huge),
    )

header_counts :
    (m : Message) (rest : Bytes)
    → length (content m) < 2 ^ 32
    → uint32_of (encode m ++ rest) ≡ length (content m)
unfolding uint32_of uint32_bytes
header_counts m rest h = omega arith

length-encode : (m : Message) → length (encode m) ≡ 4 + length (content m)
length-encode m = omega (
  arith,
  length-append (uint32_bytes (length (content m))) (content m),
  length-uint32_bytes (length (content m)),
)

encode_prefix :
    (m n : Message) (rest : Bytes)
    → length (content m) < 2 ^ 32
    → length (content n) < 2 ^ 32
    → encode m ++ rest ≡ encode n
    → rest ≡ []
encode_prefix m n rest h k e = nil_of_length rest (
    omega (
      arith,
      header_counts m rest h,
      header_counts n [] k,
      ap uint32_of (e ∙ sym (append-nil (encode n))),
      ap length e,
      length-append (encode m) rest,
      length-encode m,
      length-encode n,
    ))

-- No accepted packet is a proper prefix of another: if a buffer is accepted and also with further
-- bytes behind it, there are no further bytes.
pub parse_prefix_free :
    (fs : PathOps) (buffer rest : Bytes) (c c' d' : ChunkMetadata) (o' p' : ℕ)
    → All IsByte buffer
    → All IsByte (buffer ++ rest)
    → parse fs buffer c ≡ ok tt o' c'
    → parse fs (buffer ++ rest) c ≡ ok tt p' d'
    → rest ≡ []
parse_prefix_free fs buffer rest c c' d' o' p' b b' h k =
    let (_, (m, v, e, _)) = parse_inv fs buffer c b h in
    let (_, (n, w, f, _)) = parse_inv fs (buffer ++ rest) c b' k in
    encode_prefix m n rest (omega (arith, content-le-max fs m v))
      (omega (arith, content-le-max fs n w)) (ap (λ x. x ++ rest) (sym e) ∙ f)

-- A packet of an adaptive transfer, which declares no total, is accepted with any 32-bit chunk
-- number; from 2 ^ 31 on the stored `int` is negative.
pub parse-chunk_number_negative :
    (fs : PathOps) (m : Message) (c : ChunkMetadata)
    → IsAcceptable fs m
    → 2 ^ 31 ≤ m.chunk_number
    → (m.total_chunks ≡ 0)
      × (c' : ChunkMetadata) × (n : ℕ) × (parse fs (encode m) c ≡ ok tt (length (encode m)) c')
      × (c'.chunk_number ≡ negsuc n)
parse-chunk_number_negative fs m c v h = (
  ground (arith, v.good_counts),
  store m c,
  2 ^ 32 - m.chunk_number - 1,
  parse-accepts fs (encode m) m c v refl,
  ground (arith, v.number_fits),
)

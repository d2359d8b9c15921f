-- ===== src/ChunkPacketParser/Numbers.antt =====
-- The numeric fields and the payload of Parse (TransferCore/ChunkPacketParser.cpp).
use mathlib.Core.Path.{subst, subst₂}
use transfer_udt.Common.{
  ℕ, ◌+◌, ◌-◌, ◌^◌, ◌≤◌, ◌<◌, ◌≡◌, sym, ap, ◌∙◌, ◌&&◌, ◌||◌, ◌⊎◌, ltb, leb, ◌==◌, length, arith,
  ◌++◌, All,
}
use transfer_udt.Common.Int.{to_int}
use transfer_udt.Common.Bytes.{Bytes, IsByte, uint32_bytes, uint64_bytes}
use transfer_udt.ChunkMetadata.{ChunkMetadata, set_data}
use transfer_udt.Common.Cuts.{Took, Took-append, Took-split}
use transfer_udt.ChunkPacketParser.Binds.{bind-ok, bind_inv, reject_pass, reject_inv}
use transfer_udt.ChunkPacketParser.Words.{
  ok_inj, read_string-ok, read_string_inv, read_uint32-ok, read_uint32_inv, read_uint64-ok,
  read_uint64_inv,
}
use transfer_udt.ChunkPacketParser.Fields.{encode_string}
use transfer_udt.ChunkPacketParser.Reads.{
  Field, ParseError, ok, read_uint32, read_uint64, read_string,
}
use transfer_udt.ChunkPacketParser.{
  parse_chunk_counts, parse_chunk_offset, parse_total_file_size, parse_data, max_total_chunks,
  max_file_size_bytes, max_chunk_size_bytes,
}

abbrev pub GoodCounts : ℕ → ℕ → Type 0
GoodCounts number total = (total ≤ max_total_chunks) × ((total ≡ 0) ⊎ (number < total))

abbrev pub GoodData : ℕ → ℕ → Bytes → Type 0
GoodData offset size bytes =
    (0 < length bytes) × (length bytes ≤ max_chunk_size_bytes) × (offset + length bytes ≤ size)

module _ (buffer : Bytes) where
  pub counts-ok :
      {o o' : ℕ} (c : ChunkMetadata) (number total : ℕ)
      → Took buffer o (uint32_bytes number ++ uint32_bytes total) o'
      → number < 2 ^ 32
      → GoodCounts number total
      → parse_chunk_counts buffer o c
        ≡ ok tt o' (record c { chunk_number = to_int number; total_chunk = to_int total })
  unfolding parse_chunk_counts
  counts-ok {o} c number total t h good =
      let (first, second) = Took-split (uint32_bytes number) (uint32_bytes total) t in
      bind-ok (read_uint32 buffer Field.chunk_number) _
        (read_uint32-ok buffer Field.chunk_number number h first)
      ∙ bind-ok (read_uint32 buffer Field.total_chunks) _
          (read_uint32-ok buffer Field.total_chunks total (omega (arith, good.0)) second)
      ∙ reject_pass (ltb max_total_chunks total) ParseError.too_many_chunks _ (ground (arith, good))
      ∙ reject_pass (ltb 0 total && leb total number) ParseError.chunk_number_out_of_range _
          (ground (arith, good))

  pub counts_inv :
      {o o' : ℕ} (c : ChunkMetadata) {c' : ChunkMetadata} {u : Unit {0}}
      → All IsByte buffer
      → parse_chunk_counts buffer o c ≡ ok u o' c'
      → (number total : ℕ) × Took buffer o (uint32_bytes number ++ uint32_bytes total) o'
        × (number < 2 ^ 32)
        × GoodCounts number total
        × (record c { chunk_number = to_int number; total_chunk = to_int total } ≡ c')
  unfolding parse_chunk_counts
  counts_inv {o} c b h =
      let (number, o1, c1, e1, h1) = bind_inv (read_uint32 buffer Field.chunk_number) _ h in
      let (t1, small, same1) = read_uint32_inv buffer Field.chunk_number b e1 in
      let (total, o2, c2, e2, h2) = bind_inv (read_uint32 buffer Field.total_chunks) _ h1 in
      let (t2, small2, same2) = read_uint32_inv buffer Field.total_chunks b e2 in
      let (few, h3) = reject_inv (ltb max_total_chunks total) ParseError.too_many_chunks _ h2 in
      let (range, h4) =
        reject_inv (ltb 0 total && leb total number) ParseError.chunk_number_out_of_range _ h3 in
      let (_, e', e'') = ok_inj h4 in
      (
        number,
        total,
        subst (λ x. Took buffer o (uint32_bytes number ++ uint32_bytes total) x) e'
            (Took-append (uint32_bytes number) (uint32_bytes total) t1 t2),
        small,
        (ground (arith, few), ground (arith, range)),
        ap
              (λ (m : ChunkMetadata). record m {
                chunk_number = to_int number;
                total_chunk = to_int total;
              })
              same1
            ∙ ap (λ (m : ChunkMetadata). record m { total_chunk = to_int total }) same2
            ∙ e'',
      )

  pub offset-ok :
      {o o' : ℕ} (c : ChunkMetadata) (v : ℕ)
      → Took buffer o (uint64_bytes v) o'
      → v < 2 ^ 64
      → parse_chunk_offset buffer o c ≡ ok v o' (record c { chunk_offset = v })
  unfolding parse_chunk_offset
  offset-ok c v t h =
      bind-ok (read_uint64 buffer Field.chunk_offset) _
        (read_uint64-ok buffer Field.chunk_offset v h t)

  pub offset_inv :
      {o o' : ℕ} (c : ChunkMetadata) {c' : ChunkMetadata} {v : ℕ}
      → All IsByte buffer
      → parse_chunk_offset buffer o c ≡ ok v o' c'
      → Took buffer o (uint64_bytes v) o' × (v < 2 ^ 64) × (record c { chunk_offset = v } ≡ c')
  unfolding parse_chunk_offset
  offset_inv {o} c {v = v} b h =
      let (w, o1, c1, e1, h1) = bind_inv (read_uint64 buffer Field.chunk_offset) _ h in
      let (t, small, same) = read_uint64_inv buffer Field.chunk_offset b e1 in
      let (e, e', e'') = ok_inj h1 in
      (
        subst₂ (λ x y. Took buffer o (uint64_bytes x) y) e e' t,
        rw e at small,
        ap (λ (m : ChunkMetadata). record m { chunk_offset = v }) same
            ∙ ap (λ (x : ℕ). record c1 { chunk_offset = x }) (sym e)
            ∙ e'',
      )

  pub size-ok :
      {o o' : ℕ} (c : ChunkMetadata) (v : ℕ)
      → Took buffer o (uint64_bytes v) o'
      → 0 < v
      → v ≤ max_file_size_bytes
      → parse_total_file_size buffer o c ≡ ok v o' (record c { total_file_size = v })
  unfolding parse_total_file_size
  size-ok c v t lo hi =
      bind-ok (read_uint64 buffer Field.total_file_size) _
        (read_uint64-ok buffer Field.total_file_size v (omega (arith, hi)) t)
      ∙ reject_pass (v == 0 || ltb max_file_size_bytes v) ParseError.invalid_total_file_size _
          (ground arith)

  pub size_inv :
      {o o' : ℕ} (c : ChunkMetadata) {c' : ChunkMetadata} {v : ℕ}
      → All IsByte buffer
      → parse_total_file_size buffer o c ≡ ok v o' c'
      → Took buffer o (uint64_bytes v) o'
        × (0 < v)
        × (v ≤ max_file_size_bytes)
        × (record c { total_file_size = v } ≡ c')
  unfolding parse_total_file_size
  size_inv {o} c {v = v} b h =
      let (w, o1, c1, e1, h1) = bind_inv (read_uint64 buffer Field.total_file_size) _ h in
      let (t, small, same) = read_uint64_inv buffer Field.total_file_size b e1 in
      let (good, h2) =
        reject_inv (w == 0 || ltb max_file_size_bytes w) ParseError.invalid_total_file_size _ h1 in
      let (e, e', e'') = ok_inj h2 in
      (
        subst₂ (λ x y. Took buffer o (uint64_bytes x) y) e e' t,
        subst (λ x. 0 < x) e (ground (arith, good)),
        subst (λ x. x ≤ max_file_size_bytes) e (ground (arith, good)),
        ap (λ (m : ChunkMetadata). record m { total_file_size = v }) same
            ∙ ap (λ (x : ℕ). record c1 { total_file_size = x }) (sym e)
            ∙ e'',
      )

  pub data-ok :
      {o o' : ℕ} (c : ChunkMetadata) (offset size : ℕ) (bytes : Bytes)
      → Took buffer o (encode_string bytes) o'
      → GoodData offset size bytes
      → parse_data buffer offset size o c ≡ ok tt o' (set_data bytes c)
  unfolding parse_data
  data-ok {o} c offset size bytes t good =
      let n = length bytes in
      let (first, second) = Took-split (uint32_bytes n) bytes t in
      bind-ok (read_uint32 buffer Field.data_len) _
        (read_uint32-ok buffer Field.data_len n (omega (arith, good.1)) first)
      ∙ reject_pass (n == 0 || ltb max_chunk_size_bytes n) ParseError.invalid_chunk_data_size _
          (ground (arith, good))
      ∙ reject_pass (leb size offset || ltb (size - offset) n) ParseError.range_exceeds_file _
          (ground (arith, good))
      ∙ bind-ok (read_string buffer Field.chunk_data n) _
          (read_string-ok buffer Field.chunk_data bytes second)

  pub data_inv :
      {o o' : ℕ} (c : ChunkMetadata) {c' : ChunkMetadata} {u : Unit {0}} (offset size : ℕ)
      → All IsByte buffer
      → parse_data buffer offset size o c ≡ ok u o' c'
      → (bytes : Bytes) × Took buffer o (encode_string bytes) o'
        × GoodData offset size bytes
        × (set_data bytes c ≡ c')
  unfolding parse_data
  data_inv {o} c offset size b h =
      let (n, o1, c1, e1, h1) = bind_inv (read_uint32 buffer Field.data_len) _ h in
      let (t1, small, same1) = read_uint32_inv buffer Field.data_len b e1 in
      let (sized, h2) =
        reject_inv (n == 0 || ltb max_chunk_size_bytes n) ParseError.invalid_chunk_data_size _ h1 in
      let (range, h3) =
        reject_inv (leb size offset || ltb (size - offset) n) ParseError.range_exceeds_file _ h2 in
      let (bytes, o2, c2, e2, h4) = bind_inv (read_string buffer Field.chunk_data n) _ h3 in
      let (t2, len, same2) = read_string_inv buffer Field.chunk_data n e2 in
      let (_, e', e'') = ok_inj h4 in
      (
        bytes,
        subst (λ x. Took buffer o (encode_string bytes) x) e'
            (Took-append (uint32_bytes (length bytes)) bytes (rw len t1) t2),
        (ground (arith, sized, len), ground (arith, sized, len), ground (arith, range, sized, len)),
        ap (set_data bytes) (same1 ∙ same2) ∙ e'',
      )

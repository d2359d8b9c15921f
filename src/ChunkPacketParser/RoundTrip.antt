-- ===== src/ChunkPacketParser/RoundTrip.antt =====
-- The parser accepts exactly the encodings of acceptable messages
-- (ChunkPacketParser::Parse in TransferCore/ChunkPacketParser.cpp).
use mathlib.Core.Path.{subst}
use transfer_udt.Common.{
  ℕ, ◌+◌, ◌≡◌, refl, sym, ap, ◌∙◌, ◌↔◌, not, ◌==◌, length, arith, ◌++◌, All, ==_iff,
}
use transfer_udt.Common.Bytes.{Bytes, IsByte, uint32_bytes, uint64_bytes}
use transfer_udt.Common.Int.{to_int}
use transfer_udt.ChunkMetadata.{ChunkMetadata, set_data}
use transfer_udt.Common.Cuts.{Took, Took-append, Took-split}
use transfer_udt.ChunkPacketParser.Binds.{bind-ok, bind_inv}
use transfer_udt.ChunkPacketParser.Reads.{ParseError, ok}
use transfer_udt.ChunkPacketParser.Paths.{PathOps}
use transfer_udt.ChunkPacketParser.Fields.{encode_string}
use transfer_udt.ChunkPacketParser.Numbers.{
  counts-ok, counts_inv, offset-ok, offset_inv, size-ok, size_inv, data-ok, data_inv,
}
use transfer_udt.Common.Cuts.{Took-whole, whole_of_Took}
use transfer_udt.ChunkPacketParser.Frame.{
  reject_last, reject_last_inv, total_length-ok, total_length_inv,
}
use transfer_udt.ChunkPacketParser.StringFields.{
  not_inv, filename-ok, filename_inv, directory-ok, directory_inv, server_address-ok,
  server_address_inv, transfer_id-ok, transfer_id_inv, hash-ok, hash_inv,
}
use transfer_udt.ChunkPacketParser.Packet.{
  Message, IsAcceptable, content, encode, store, content-le-max,
}
use transfer_udt.ChunkPacketParser.{
  parse, parse_body, parse_total_length, parse_filename, parse_directory, parse_server_address,
  parse_transfer_id, parse_hash, parse_chunk_counts, parse_chunk_offset, parse_total_file_size,
  parse_data,
}

-- An update after an update, through the state between them.
update_twice :
    (f : ChunkMetadata → ChunkMetadata) {x y z : ChunkMetadata} → x ≡ y → f y ≡ z → f x ≡ z
update_twice f p q = ap f p ∙ q

-- A header that counts the rest of the buffer counts the content.
framed :
    (buffer : Bytes) (n : ℕ) (xs : Bytes) {o o' : ℕ}
    → Took buffer 0 (uint32_bytes n) o
    → Took buffer o xs o'
    → length buffer ≡ o + n
    → o' ≡ length buffer
    → buffer ≡ uint32_bytes (length xs) ++ xs
framed buffer n xs {o} {o'} t u sized e =
    whole_of_Took buffer (uint32_bytes (length xs) ++ xs)
      (rw (← counts) (subst (λ x. Took buffer 0 (uint32_bytes n ++ xs) x) e (Took-append _ _ t u)))
  where
    counts : n ≡ length xs
    counts = omega (arith, u.ended, sized, e)

module _ (fs : PathOps) where
  pub parse-accepts :
      (buffer : Bytes) (m : Message) (c : ChunkMetadata)
      → IsAcceptable fs m
      → buffer ≡ encode m
      → parse fs buffer c ≡ ok tt (length buffer) (store m c)
  unfolding parse parse_body
  parse-accepts buffer m c v e =
      let small = content-le-max fs m v in
      let (header, r0) =
        Took-split (uint32_bytes (length (content m))) (content m)
          (Took-whole buffer (encode m) e) in
      let (name, r1) = Took-split (encode_string m.filename) _ r0 in
      let (dir, r2) = Took-split (encode_string m.directory) _ r1 in
      let (address, r3) = Took-split (encode_string m.server_address) _ r2 in
      let (id, r4) = Took-split (encode_string m.transfer_id) _ r3 in
      let (counts, r5) =
        Took-split (uint32_bytes m.chunk_number ++ uint32_bytes m.total_chunks) _ r4 in
      let (offset, r6) = Took-split (uint64_bytes m.chunk_offset) _ r5 in
      let (size, r7) = Took-split (uint64_bytes m.total_file_size) _ r6 in
      let (sum, bytes) = Took-split (encode_string m.hash) (encode_string m.chunk_data) r7 in
      bind-ok (parse_total_length buffer) _
        (total_length-ok buffer (length (content m)) header (r0.ended ∙ refl) small)
      ∙ bind-ok (parse_filename buffer fs) _
          (filename-ok buffer fs _ m.filename name v.safe_filename)
      ∙ bind-ok (parse_directory buffer fs) _
          (directory-ok buffer fs _ m.directory dir v.safe_directory)
      ∙ bind-ok (parse_server_address buffer) _
          (server_address-ok buffer fs _ m.server_address address v.short_address)
      ∙ bind-ok (parse_transfer_id buffer) _
          (transfer_id-ok buffer fs _ m.transfer_id id v.id_length v.id_hex)
      ∙ bind-ok (parse_chunk_counts buffer) _
          (counts-ok buffer _ m.chunk_number m.total_chunks counts v.number_fits v.good_counts)
      ∙ bind-ok (parse_chunk_offset buffer) _
          (offset-ok buffer _ m.chunk_offset offset (omega (arith, v.good_data, v.file_not_huge)))
      ∙ bind-ok (parse_total_file_size buffer) _
          (size-ok buffer _ m.total_file_size size v.file_not_empty v.file_not_huge)
      ∙ bind-ok (parse_hash buffer) _ (hash-ok buffer fs _ m.hash sum v.hash_length v.hash_hex)
      ∙ bind-ok (parse_data buffer m.chunk_offset m.total_file_size) _
          (data-ok buffer _ m.chunk_offset m.total_file_size m.chunk_data bytes v.good_data)
      ∙ reject_last (not (length buffer == length buffer)) ParseError.unexpected_trailing_bytes
          (ground arith)

  pub parse_inv :
      (buffer : Bytes) (c : ChunkMetadata) {c' : ChunkMetadata} {u : Unit {0}} {o' : ℕ}
      → All IsByte buffer
      → parse fs buffer c ≡ ok u o' c'
      → (o' ≡ length buffer)
        × ((m : Message) × IsAcceptable fs m × (buffer ≡ encode m) × (store m c ≡ c'))
  unfolding parse parse_body
  parse_inv buffer c b h =
      let (_, o0, c0, e0, h0) = bind_inv (parse_total_length buffer) _ h in
      let (n, t0, sized, s0) = total_length_inv buffer b e0 in
      let (_, o1, c1, e1, h1) = bind_inv (parse_filename buffer fs) _ h0 in
      let (name, t1, v1, s1) = filename_inv buffer fs c0 b e1 in
      let (_, o2, c2, e2, h2) = bind_inv (parse_directory buffer fs) _ h1 in
      let (dir, t2, v2, s2) = directory_inv buffer fs c1 b e2 in
      let (_, o3, c3, e3, h3) = bind_inv (parse_server_address buffer) _ h2 in
      let (address, t3, v3, s3) = server_address_inv buffer fs c2 b e3 in
      let (_, o4, c4, e4, h4) = bind_inv (parse_transfer_id buffer) _ h3 in
      let (id, t4, v4, v4', s4) = transfer_id_inv buffer fs c3 b e4 in
      let (_, o5, c5, e5, h5) = bind_inv (parse_chunk_counts buffer) _ h4 in
      let (number, total, t5, v5, v5', s5) = counts_inv buffer c4 b e5 in
      let (offset, o6, c6, e6, h6) = bind_inv (parse_chunk_offset buffer) _ h5 in
      let (t6, v6, s6) = offset_inv buffer c5 b e6 in
      let (size, o7, c7, e7, h7) = bind_inv (parse_total_file_size buffer) _ h6 in
      let (t7, v7, v7', s7) = size_inv buffer c6 b e7 in
      let (_, o8, c8, e8, h8) = bind_inv (parse_hash buffer) _ h7 in
      let (sum, t8, v8, v8', s8) = hash_inv buffer fs c7 b e8 in
      let (_, o9, c9, e9, h9) = bind_inv (parse_data buffer offset size) _ h8 in
      let (bytes, t9, v9, s9) = data_inv buffer c8 offset size b e9 in
      let (done, ended, s10) =
        reject_last_inv (not (o9 == length buffer)) ParseError.unexpected_trailing_bytes h9 in
      let m : Message = record {
        filename = name;
        directory = dir;
        server_address = address;
        transfer_id = id;
        chunk_number = number;
        total_chunks = total;
        chunk_offset = offset;
        total_file_size = size;
        hash = sum;
        chunk_data = bytes;
      } in
      let body = Took-append _ _ t1 (
        Took-append _ _ t2 (
          Took-append _ _ t3 (
            Took-append _ _ t4 (
              Took-append _ _ t5
                (Took-append _ _ t6 (Took-append _ _ t7 (Took-append _ _ t8 t9))))))) in
      let whole : o9 ≡ length buffer =
        (==_iff o9 (length buffer)).0 (not_inv (o9 == length buffer) done) in
      (
        sym ended ∙ whole,
        (
          m,
          record {
            safe_filename = v1;
            safe_directory = v2;
            short_address = v3;
            id_length = v4;
            id_hex = v4';
            number_fits = v5;
            good_counts = v5';
            file_not_empty = v7;
            file_not_huge = v7';
            hash_length = v8;
            hash_hex = v8';
            good_data = v9;
          },
          framed buffer n (content m) t0 body sized whole,
          update_twice (set_data bytes)
                (update_twice (λ x. record x { hash = sum })
                  (update_twice (λ x. record x { total_file_size = size })
                    (update_twice (λ x. record x { chunk_offset = offset })
                      (update_twice
                        (λ x. record x { chunk_number = to_int number; total_chunk = to_int total })
                        (update_twice (λ x. record x { transfer_id = id })
                          (update_twice (λ x. record x { server_address = address })
                            (update_twice (λ x. record x { directory = dir })
                              (update_twice (λ x. record x { filename = name }) s0 s1) s2)
                            s3)
                          s4)
                        s5)
                      s6)
                    s7)
                  s8)
                s9
              ∙ s10,
        ),
      )

-- Parse succeeds exactly on the encodings of acceptable messages: with every byte of the buffer
-- below 256, it succeeds at the offset `o` with the chunk c' if and only if `o` is the end of the
-- buffer, the buffer is the wire format of some acceptable message and c' is the given chunk with the
-- fields of that message stored in it.
pub parse_iff :
    (fs : PathOps) (buffer : Bytes) (c c' : ChunkMetadata) (o : ℕ)
    → All IsByte buffer
    → (parse fs buffer c ≡ ok tt o c') ↔ (
        (o ≡ length buffer)
        × ((m : Message) × IsAcceptable fs m × (buffer ≡ encode m) × (store m c ≡ c')))
parse_iff fs buffer c c' o b = (
  parse_inv fs buffer c b,
  λ (whole, (m, v, e, s)).
      parse-accepts fs buffer m c v e
      ∙ ap (ok tt (length buffer)) s
      ∙ ap (λ n. ok tt n c') (sym whole),
)

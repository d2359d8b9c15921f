-- ===== src/NetworkManager/Serialize/Encodes.antt =====
-- The writer of AgentUDTC++_v7.2/NetworkManager.cpp produces the wire format, and the parser of
-- TransferCore/ChunkPacketParser.cpp reads it back.
use mathlib.Core.Path.{subst}
use native.Mathlib.Nat.{zero-add, suc-add}
use transfer_udt.Common.{
  ℕ, zero, suc, ◌+◌, ◌/◌, ◌^◌, ◌<◌, ◌≡◌, refl, ap, ◌∙◌, [], ◌++◌, length, take, drop, ltb, arith,
  append_assoc, append-nil, length-append, drop-length-append, take-length-append, drop-drop,
  take-length, Bool-cases, inl, inr, nil_of_length,
}
use transfer_udt.Common.Bytes.{Bytes, uint32_bytes, uint64_bytes, length-uint32_bytes}
use transfer_udt.ChunkMetadata.{ChunkMetadata}
use transfer_udt.ChunkPacketParser.Paths.{PathOps}
use transfer_udt.ChunkPacketParser.Reads.{ok}
use transfer_udt.ChunkPacketParser.Fields.{encode_string}
use transfer_udt.ChunkPacketParser.Packet.{
  Message, IsAcceptable, content, content_length, encode, store, length-content, content-le-max,
}
use transfer_udt.ChunkPacketParser.RoundTrip.{parse-accepts}
use transfer_udt.ChunkPacketParser.{parse}
use transfer_udt.NetworkManager.Serialize.{
  Writer, zeros, put, put_uint32, put_uint64, put_string, content_size, serialize_chunk_message,
  cast_uint32,
}

-- `rest` is still to be written of `total`; its place in the buffer is filled with zeros.
record Pending (total rest : Bytes) (w : Writer) : Type 0 where
  done : Bytes
  filled : w.buffer ≡ done ++ zeros (length rest)
  here : w.offset ≡ length done
  whole : done ++ rest ≡ total

drop-replicate : (n m : ℕ) → drop n (zeros (n + m)) ≡ zeros m
drop-replicate zero m = rw zero-add
drop-replicate (suc n) m = rw suc-add (drop-replicate n m)

put_copy :
    (done bytes rest : Bytes)
    → take (length done) (done ++ zeros (length (bytes ++ rest)))
        ++ (bytes ++ drop (length done + length bytes) (done ++ zeros (length (bytes ++ rest))))
      ≡ (done ++ bytes) ++ zeros (length rest)
put_copy done bytes rest = rw (
  take-length-append done (zeros (length (bytes ++ rest))),
  ← drop-drop (length done) (length bytes) (done ++ zeros (length (bytes ++ rest))),
  drop-length-append done (zeros (length (bytes ++ rest))),
  length-append bytes rest,
  drop-replicate (length bytes) (length rest),
  append_assoc done bytes (zeros (length rest)),
)

module _ {total : Bytes} where
  put-Pending :
      (bytes rest : Bytes) (w : Writer)
      → Pending total (bytes ++ rest) w
      → Pending total rest (put bytes w)
  unfolding put
  put-Pending bytes rest w p = record {
    done = p.done ++ bytes;
    filled = rw (p.here, p.filled) (put_copy p.done bytes rest);
    here = omega (arith, p.here, length-append p.done bytes);
    whole = append_assoc p.done bytes rest ∙ p.whole;
  }

  put_uint64-Pending :
      (v : ℕ) (rest : Bytes) (w : Writer)
      → Pending total (uint64_bytes v ++ rest) w
      → Pending total rest (put_uint64 v w)
  unfolding uint64_bytes
  put_uint64-Pending v rest w p =
      put-Pending (uint32_bytes (cast_uint32 v)) rest _
        (put-Pending (uint32_bytes (cast_uint32 (v / 2 ^ 32))) _ w (rw append_assoc at p))

  put_string-Pending :
      (s rest : Bytes) (w : Writer)
      → length s < 2 ^ 32
      → Pending total (encode_string s ++ rest) w
      → Pending total rest (put_string s w)
  unfolding put_string
  put_string-Pending s rest w h p = rw fits (elim (Bool-cases (ltb 0 (length s))) [
    | inl some_byte ↦ rw (some_byte, take-length s) (put-Pending s rest _ headed)
    | inr nothing ↦ rw nothing (
        subst (λ x. Pending total (x ++ rest) (put_uint32 (length s) w))
          (nil_of_length s (ground (arith, nothing))) headed)
  ])
    where
      fits : cast_uint32 (length s) ≡ length s
      fits = omega arith

      headed : Pending total (s ++ rest) (put_uint32 (length s) w)
      headed = put-Pending (uint32_bytes (length s)) (s ++ rest) w (rw append_assoc at p)

  put_last :
      (s : Bytes) (w : Writer)
      → length s < 2 ^ 32
      → Pending total (encode_string s) w
      → (put_string s w).buffer ≡ total
  put_last s w h p = let q = put_string-Pending s [] w h (rw append-nil p) in q.filled ∙ q.whole

  regroup :
      (xs ys rest : Bytes) (w : Writer)
      → Pending total ((xs ++ ys) ++ rest) w
      → Pending total (xs ++ (ys ++ rest)) w
  regroup xs ys rest w p = rw append_assoc at p

content_size_lem : (m : Message) → content_length m < 2 ^ 32 → content_size m ≡ length (content m)
unfolding content_size
content_size_lem m h = omega (arith, length-content m)

-- The message that the agent's copies build is the wire format of its fields, when its length
-- fits the 32-bit length field.
pub serialize-eq-encode :
    (m : Message) → content_length m < 2 ^ 32 → serialize_chunk_message m ≡ encode m
unfolding serialize_chunk_message
serialize-eq-encode m h =
    rw (content_size_lem m h, serialize_chunk_message)
      (put_last m.chunk_data _ (omega arith) (
        put_string-Pending m.hash _ _ (omega arith) (
          put_uint64-Pending m.total_file_size _ _ (
            put_uint64-Pending m.chunk_offset _ _ (
              put-Pending (uint32_bytes m.total_chunks) _ _ (
                put-Pending (uint32_bytes m.chunk_number) _ _ (
                  regroup (uint32_bytes m.chunk_number) _ _ _ (
                    put_string-Pending m.transfer_id _ _ (omega arith) (
                      put_string-Pending m.server_address _ _ (omega arith) (
                        put_string-Pending m.directory _ _ (omega arith) (
                          put_string-Pending m.filename _ _ (omega arith)
                            (put-Pending (uint32_bytes (length (content m))) _ _ start))))))))))))
  where
    start :
        Pending
          (encode m)
          (encode m)
          (record { buffer = zeros (4 + length (content m)); offset = 0 })
    start = record {
      done = [];
      filled = ap zeros (
          omega (
            arith,
            length-append (uint32_bytes (length (content m))) (content m),
            length-uint32_bytes (length (content m)),
          ));
      here = refl;
      whole = refl;
    }

-- What the agent sends, the server reads: for an acceptable message the parser succeeds on the
-- serialized bytes, consumes all of them, and stores exactly the message's fields.
pub parse-serialize :
    (fs : PathOps) (m : Message) (c : ChunkMetadata)
    → IsAcceptable fs m
    → parse fs (serialize_chunk_message m) c
      ≡ ok tt (length (serialize_chunk_message m)) (store m c)
parse-serialize fs m c v =
    parse-accepts fs (serialize_chunk_message m) m c v
      (serialize-eq-encode m (omega (arith, content-le-max fs m v, length-content m)))

-- ===== src/Server/FileReceiver/Written.antt =====
-- What a written chunk leaves in its file (ServerUDTC++_v3/FileReceiver.cpp).
use transfer_udt.Common.{
  ℕ, zero, suc, ◌+◌, ◌-◌, ◌≡◌, refl, Bool, true, [], ◌∷◌, ◌++◌, length, take, drop, replicate,
  Option, none, some, length-append, length-take, length-replicate, drop-length-append,
  append_assoc, take-length-append, arith,
}
use transfer_udt.Common.Bytes.{Bytes, bytes_eq_iff, slice}
use transfer_udt.Server.FileReceiver.{Host, Map, Attempt, unopened, broken_after, written}
use transfer_udt.Server.FileReceiver.Output.{
  write_at, after_attempt, write_loop, write_existing, max_write_attempts, write_chunk,
}

slice_after :
    (offset : ℕ) (before middle after : Bytes)
    → length before ≡ offset
    → slice offset (length middle) (before ++ middle ++ after) ≡ middle
slice_after offset before middle after e =
    rw (← e, append_assoc before middle after, drop-length-append before (middle ++ after))
      (take-length-append middle after)

length-padded :
    (offset : ℕ) (content : Bytes)
    → length (take offset (content ++ replicate (offset - length content) 0)) ≡ offset
length-padded offset content = omega (
  arith,
  length-take offset (content ++ replicate (offset - length content) 0),
  length-append content (replicate (offset - length content) 0),
  length-replicate {A = ℕ} (offset - length content) 0,
)

write_at_lem :
    (offset : ℕ) (bytes content : Bytes)
    → slice offset (length bytes) (write_at offset bytes content) ≡ bytes
write_at_lem offset [] content = refl
write_at_lem offset (b ∷ bytes) content =
    slice_after offset (take offset (content ++ replicate (offset - length content) 0)) (b ∷ bytes)
      (drop (offset + length (b ∷ bytes)) content) (length-padded offset content)

-- Whatever the later attempts do, a success has the bytes in place.
Places : ℕ → Bytes → Bool × Bytes → Type 0
Places offset bytes (done, content) = done ≡ true → slice offset (length bytes) content ≡ bytes

after_attempt_lem :
    (offset : ℕ) (bytes content : Bytes) (next : Bytes → Bool × Bytes) (a : Attempt)
    → ((c : Bytes) → Places offset bytes (next c))
    → Places offset bytes (after_attempt offset bytes content next a)
unfolding Places
after_attempt_lem offset bytes content next unopened h = h content
after_attempt_lem offset bytes content next (broken_after n) h =
    h (write_at offset (take n bytes) content)
after_attempt_lem offset bytes content next written h = λ e. write_at_lem offset bytes content

write_loop_lem :
    (host : Host) (offset : ℕ) (bytes : Bytes) (left at : ℕ) (content : Bytes)
    → Places offset bytes (write_loop host offset bytes left at content)
unfolding write_loop Places
write_loop_lem host offset bytes zero at content = λ e. absurd (ground (arith, e))
write_loop_lem host offset bytes (suc left) at content =
    after_attempt_lem offset bytes content (write_loop host offset bytes left (suc at))
      (host.attempt at) (write_loop_lem host offset bytes left (suc at))

write_existing_lem :
    (host : Host) (path : Bytes) (offset : ℕ) (bytes : Bytes) (old : Option Bytes)
    (disk : Map Bytes)
    → (write_existing host path offset bytes old disk).0 ≡ true
    → (content : Bytes) × ((write_existing host path offset bytes old disk).1 path ≡ some content)
      × (slice offset (length bytes) content ≡ bytes)
unfolding Places
write_existing_lem host path offset bytes none disk e = absurd (ground (arith, e))
write_existing_lem host path offset bytes (some old) disk e = (
  (write_loop host offset bytes max_write_attempts 1 old).1,
  rw ((bytes_eq_iff path path).1 refl) refl,
  write_loop_lem host offset bytes max_write_attempts 1 old e,
)

-- A chunk that is written stands at its offset in the file.
pub write_chunk_lem :
    (host : Host) (path : Bytes) (offset : ℕ) (bytes : Bytes) (disk : Map Bytes)
    → (write_chunk host path offset bytes disk).0 ≡ true
    → (content : Bytes) × ((write_chunk host path offset bytes disk).1 path ≡ some content)
      × (slice offset (length bytes) content ≡ bytes)
unfolding write_chunk
write_chunk_lem host path offset bytes disk e =
    write_existing_lem host path offset bytes (disk path) disk e

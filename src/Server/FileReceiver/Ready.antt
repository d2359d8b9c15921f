-- ===== src/Server/FileReceiver/Ready.antt =====
-- What an answer promises, and what holds when a chunk is ready to be written (receiveChunk of
-- ServerUDTC++_v3/FileReceiver.cpp).
use transfer_udt.Common.{
  ℕ, ◌≡◌, refl, sym, ap, ◌∙◌, ◌⊎◌, inl, true, false, not, ◌&&◌, ◌||◌, length, ◌==◌, none, some,
  arith,
}
use transfer_udt.Common.Bytes.{Bytes, slice}
use transfer_udt.ChunkMetadata.{ChunkMetadata}
use transfer_udt.Server.Database.{get_chunk_status, is_chunk_successful}
use transfer_udt.Server.Database.Rows.{status-le-count}
use transfer_udt.Server.FileReceiver.{
  ReceiveResult, Host, ServerConfig, FileReceiver, Transfer, Progress, returns, throws, continues,
}
use transfer_udt.Server.FileReceiver.Receive.{directory_of, check_duplicate}
use transfer_udt.Server.FileReceiver.Checked.{
  Ends, is_chunk_taken, has_row, path_of, IsNameOf, IsKept, IsVerified,
}

module _ (host : Host) (config : ServerConfig) (chunk : ChunkMetadata) (bytes : Bytes)
    (before : FileReceiver) where
  -- The chunk is committed: its hash matches and its bytes stand in the file.
  pub record IsWritten (filename : Bytes) (s : FileReceiver) : Type 0 where
    pub committed : s.database.saved ≡ none
    pub hash_matches : host.calculate_chunk_hash bytes ≡ chunk.hash
    pub content : Bytes
    pub on_disk : s.disk (path_of host config chunk bytes before filename) ≡ some content
    pub in_place : slice chunk.chunk_offset (length bytes) content ≡ bytes

  -- The chunk has a successful row by its name, and this call has written it or changed nothing.
  pub record IsStored (s : FileReceiver) : Type 0 where
    pub filename : Bytes
    pub named : IsNameOf host config chunk bytes before filename
    pub successful : has_row host config chunk bytes before filename s ≡ true
    pub how : ((s.database ≡ before.database) × (s.disk ≡ before.disk)) ⊎ IsWritten filename s

  unfoldable pub IsAnswered : ReceiveResult → FileReceiver → Type 0
  IsAnswered r s = is_chunk_taken r ≡ true → IsStored s

  pub refused-IsAnswered :
      (r : ReceiveResult) (s : FileReceiver) → is_chunk_taken r ≡ false → IsAnswered r s
  unfolding IsAnswered
  refused-IsAnswered r s e h = absurd (ground (arith, e, h))

  pub weaken :
      (C : Transfer → FileReceiver → Type 0) (p : Progress)
      → Ends (IsKept host config chunk bytes before) C p
      → Ends IsAnswered C p
  weaken C (returns r s) h = refused-IsAnswered r s h.refused
  weaken C (throws s) h = tt
  weaken C (continues t s) h = h

  abbrev pub Verified : Transfer → FileReceiver → Type 0
  Verified = IsVerified host config chunk bytes before

  -- The rows of the chunk in the tables.
  abbrev pub rows_of : Transfer → FileReceiver → ℕ
  rows_of t s =
      get_chunk_status (directory_of t.chunk) t.chunk.filename t.chunk.chunk_number
        s.database.tables

  -- A row that was found stays there.
  pub record IsReady (t : Transfer) (s : FileReceiver) : Type 0 where
    pub database_kept : s.database ≡ before.database
    pub same_chunk : t.chunk ≡ record chunk { filename = t.filename }
    pub named : IsNameOf host config chunk bytes before t.filename
    pub same_path : t.reconstructed_file_path ≡ path_of host config chunk bytes before t.filename
    pub hash_matches : host.calculate_chunk_hash bytes ≡ chunk.hash
    pub known :
        (not t.chunk_known_in_db
          || (not (t.replace_reconstructed_file || t.reset_partial_transfer)
              && not (rows_of t s == 0)))
        ≡ true

  again :
      (t : Transfer) (s : FileReceiver)
      → Verified t s
      → is_chunk_successful
          (directory_of t.chunk)
          t.chunk.filename
          t.chunk.chunk_number
          s.database.tables
        ≡ true
      → IsAnswered ReceiveResult.stored s
  unfolding IsAnswered
  again t s h e _ = record {
    filename = t.filename;
    named = h.checked.named;
    successful =
        ap (λ c. is_chunk_successful (directory_of c) c.filename c.chunk_number s.database.tables)
          (sym h.checked.same_chunk)
        ∙ e;
    how = inl (h.checked.database_kept, h.checked.disk_kept);
  }

  fresh :
      (t : Transfer) (s : FileReceiver)
      → Verified t s
      → IsReady (record t { chunk_known_in_db = false }) s
  fresh t s h = record {
    database_kept = h.checked.database_kept;
    same_chunk = h.checked.same_chunk;
    named = h.checked.named;
    same_path = h.checked.same_path;
    hash_matches = h.hash_matches;
    known = refl;
  }

  -- A replaced file has no rows.
  not_replaced :
      (t : Transfer) (s : FileReceiver)
      → Verified t s
      → (not t.replace_reconstructed_file || (rows_of t s == 0)) ≡ true
  not_replaced t s h =
      rw (h.checked.same_chunk, h.checked.database_kept)
        (ground (
          arith,
          h.checked.no_rows,
          status-le-count (directory_of chunk) t.filename chunk.chunk_number before.database.tables,
        ))

  found :
      (t : Transfer) (s : FileReceiver)
      → Verified t s
      → t.reset_partial_transfer ≡ false
      → IsReady (record t { chunk_known_in_db = not (rows_of t s == 0) }) s
  found t s h e = record {
    database_kept = h.checked.database_kept;
    same_chunk = h.checked.same_chunk;
    named = h.checked.named;
    same_path = h.checked.same_path;
    hash_matches = h.hash_matches;
    known = ground (arith, not_replaced t s h, e);
  }

  pub duplicate-IsReady :
      (t : Transfer) (s : FileReceiver)
      → Verified t s
      → Ends IsAnswered IsReady (check_duplicate host config t s)
  unfolding check_duplicate
  duplicate-IsReady t s h =
      ground (
        arith,
        refused-IsAnswered ReceiveResult.failed s refl,
        again t s h,
        fresh t s h,
        found t s h,
      )

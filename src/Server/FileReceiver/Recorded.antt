-- ===== src/Server/FileReceiver/Recorded.antt =====
-- What holds once the row of a chunk is updated (receiveChunk of
-- ServerUDTC++_v3/FileReceiver.cpp).
use transfer_udt.Common.{◌≡◌, refl, true, false, not, ◌==◌, Option, none, some, arith}
use transfer_udt.Common.Int.{ℤ}
use transfer_udt.Common.Bytes.{Bytes}
use transfer_udt.ChunkMetadata.{ChunkMetadata}
use transfer_udt.Server.Database.{
  Status, ChunkRow, Database, get_chunk_status, is_chunk_successful, insert_chunk,
  update_chunk_status,
}
use transfer_udt.Server.Database.Rows.{update_rows_lem, insert_row_lem}
use transfer_udt.Server.FileReceiver.{
  ReceiveResult, Host, ServerConfig, FileReceiver, Transfer, and_then,
}
use transfer_udt.Server.FileReceiver.Receive.{directory_of}
use transfer_udt.Server.FileReceiver.Receive.Store.{
  new_row, stored_row, mark_success, update_database,
}
use transfer_udt.Server.FileReceiver.Checked.{Ends, is_chunk_taken, IsNameOf}
use transfer_udt.Server.FileReceiver.Ready.{IsWritten, IsAnswered, refused-IsAnswered, rows_of}
use transfer_udt.Server.FileReceiver.Placed.{IsPlaced}

module _ (host : Host) (config : ServerConfig) (chunk : ChunkMetadata) (bytes : Bytes)
    (before : FileReceiver) where
  abbrev Answered : ReceiveResult → FileReceiver → Type 0
  Answered = IsAnswered host config chunk bytes before

  abbrev Placed : Transfer → FileReceiver → Type 0
  Placed = IsPlaced host config chunk bytes before

  refused : (r : ReceiveResult) (s : FileReceiver) → is_chunk_taken r ≡ false → Answered r s
  refused = refused-IsAnswered host config chunk bytes before

  -- The row is successful and committed.
  pub record IsRecorded (t : Transfer) (s : FileReceiver) : Type 0 where
    pub same_chunk : t.chunk ≡ record chunk { filename = t.filename }
    pub named : IsNameOf host config chunk bytes before t.filename
    pub successful :
        is_chunk_successful
          (directory_of t.chunk)
          t.chunk.filename
          t.chunk.chunk_number
          s.database.tables
        ≡ true
    pub stored : IsWritten host config chunk bytes before t.filename s

  update_lem :
      (client filename : Bytes) (number : ℤ) (d e : Database)
      → d.active ≡ false
      → not (get_chunk_status client filename number d.tables == 0) ≡ true
      → update_chunk_status client filename number Status.success d ≡ some e
      → (e.saved ≡ none) × (is_chunk_successful client filename number e.tables ≡ true)
  unfolding update_chunk_status
  update_lem client filename number d e a n u =
      ground (arith, a, n, u, update_rows_lem client filename number d.tables)

  stored_row-IsRecorded :
      (t : Transfer) (s : FileReceiver) (d : Option Database)
      → Placed t s
      → ((e : Database)
          → d ≡ some e
          → (e.saved ≡ none)
            × (is_chunk_successful
                  (directory_of t.chunk)
                  t.chunk.filename
                  t.chunk.chunk_number
                  e.tables
                ≡ true))
      → Ends Answered IsRecorded (stored_row t s d)
  stored_row-IsRecorded t s none h f = refused ReceiveResult.failed s refl
  stored_row-IsRecorded t s (some e) h f = record {
    same_chunk = h.cleared.same_chunk;
    named = h.cleared.named;
    successful = (f e refl).1;
    stored = record {
      committed = (f e refl).0;
      hash_matches = h.cleared.hash_matches;
      content = h.content;
      on_disk = h.on_disk;
      in_place = h.in_place;
    };
  }

  mark-IsRecorded :
      (t : Transfer) (s : FileReceiver)
      → Placed t s
      → not (rows_of host config chunk bytes before t s == 0) ≡ true
      → Ends Answered IsRecorded (mark_success host config t s)
  mark-IsRecorded t s h n = ground (
    arith,
    refused ReceiveResult.failed s refl,
    stored_row-IsRecorded t s
        (update_chunk_status (directory_of t.chunk) t.chunk.filename t.chunk.chunk_number
          Status.success s.database)
        h
        (λ e.
          update_lem (directory_of t.chunk) t.chunk.filename t.chunk.chunk_number s.database e
            h.cleared.inactive n),
  )

  insert_lem :
      (r : ChunkRow) (d e : Database)
      → d.active ≡ false
      → insert_chunk r d ≡ some e
      → (e.active ≡ false)
        × (not (get_chunk_status r.client_address r.filename r.chunk_number e.tables == 0) ≡ true)
  unfolding insert_chunk
  insert_lem r d e a i = ground (arith, a, i, insert_row_lem r d.tables e.tables)

  inserted-IsRecorded :
      (t : Transfer) (s : FileReceiver) (d : Option Database)
      → Placed t s
      → ((e : Database)
          → d ≡ some e
          → (e.active ≡ false)
            × (not (
                  get_chunk_status
                    (directory_of t.chunk)
                    t.chunk.filename
                    t.chunk.chunk_number
                    e.tables
                  == 0)
                ≡ true))
      → Ends Answered IsRecorded (and_then (stored_row t s d) (mark_success host config))
  inserted-IsRecorded t s none h f = refused ReceiveResult.failed s refl
  inserted-IsRecorded t s (some e) h f =
      mark-IsRecorded t (record s { database = e }) (placed e (f e refl)) (f e refl).1
    where
      placed :
          (e : Database)
          → (e.active ≡ false)
            × (not (
                  get_chunk_status
                    (directory_of t.chunk)
                    t.chunk.filename
                    t.chunk.chunk_number
                    e.tables
                  == 0)
                ≡ true)
          → Placed t (record s { database = e })
      placed e (a, n) = record {
        cleared = record {
          inactive = a;
          same_chunk = h.cleared.same_chunk;
          named = h.cleared.named;
          same_path = h.cleared.same_path;
          hash_matches = h.cleared.hash_matches;
          known = ground (arith, n);
        };
        content = h.content;
        on_disk = h.on_disk;
        in_place = h.in_place;
      }

  pub update-IsRecorded :
      (t : Transfer) (s : FileReceiver)
      → Placed t s
      → Ends Answered IsRecorded (update_database host config t s)
  unfolding update_database
  update-IsRecorded t s h = ground (
    arith,
    h.cleared.known,
    refused ReceiveResult.failed s refl,
    mark-IsRecorded t s h,
    inserted-IsRecorded t s (insert_chunk (new_row t) s.database) h
        (λ e. insert_lem (new_row t) s.database e h.cleared.inactive),
  )

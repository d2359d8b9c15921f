-- ===== src/Server/FileReceiver/Placed.antt =====
-- What holds once the bytes of a chunk are written (receiveChunk of
-- ServerUDTC++_v3/FileReceiver.cpp).
use transfer_udt.Common.{
  ◌≡◌, refl, sym, ap, ◌∙◌, Bool, true, false, not, ◌||◌, length, ◌==◌, some, arith,
}
use transfer_udt.Common.Bytes.{Bytes, slice}
use transfer_udt.ChunkMetadata.{ChunkMetadata}
use transfer_udt.Server.Database.{
  Database, begin_transaction, commit_transaction, rollback_transaction,
}
use transfer_udt.Server.FileReceiver.{
  ReceiveResult, Host, ServerConfig, Map, erase, FileReceiver, Transfer,
}
use transfer_udt.Server.FileReceiver.Output.{prepare_output_file_for_chunk, write_chunk}
use transfer_udt.Server.FileReceiver.Receive.Store.{
  clear_rows, after_clear, clear_old, after_write, after_prepare, target_file_size,
  prepare_and_write, write_to_file,
}
use transfer_udt.Server.FileReceiver.Checked.{
  Ends, and_then-Ends, is_chunk_taken, path_of, IsNameOf,
}
use transfer_udt.Server.FileReceiver.Written.{write_chunk_lem}
use transfer_udt.Server.FileReceiver.Ready.{IsAnswered, IsReady, refused-IsAnswered, rows_of}

module _ (host : Host) (config : ServerConfig) (chunk : ChunkMetadata) (bytes : Bytes)
    (before : FileReceiver) where
  abbrev Answered : ReceiveResult → FileReceiver → Type 0
  Answered = IsAnswered host config chunk bytes before

  abbrev Ready : Transfer → FileReceiver → Type 0
  Ready = IsReady host config chunk bytes before

  refused : (r : ReceiveResult) (s : FileReceiver) → is_chunk_taken r ≡ false → Answered r s
  refused = refused-IsAnswered host config chunk bytes before

  -- Ready to write: no transaction is active.
  pub record IsCleared (t : Transfer) (s : FileReceiver) : Type 0 where
    pub inactive : s.database.active ≡ false
    pub same_chunk : t.chunk ≡ record chunk { filename = t.filename }
    pub named : IsNameOf host config chunk bytes before t.filename
    pub same_path : t.reconstructed_file_path ≡ path_of host config chunk bytes before t.filename
    pub hash_matches : host.calculate_chunk_hash bytes ≡ chunk.hash
    pub known :
        (not t.chunk_known_in_db || not (rows_of host config chunk bytes before t s == 0)) ≡ true

  cleared-inactive :
      (t : Transfer) (d : Database)
      → d.active ≡ false
      → (clear_rows host config t d).0 ≡ true
      → (clear_rows host config t d).1.active ≡ false
  unfolding begin_transaction commit_transaction rollback_transaction
  cleared-inactive t d h e = ground (arith, h, e)

  after_clear-IsCleared :
      (t : Transfer) (s : FileReceiver) (c : Bool × Database)
      → Ready t s
      → (c.0 ≡ true → c.1.active ≡ false)
      → (t.replace_reconstructed_file || t.reset_partial_transfer) ≡ true
      → Ends Answered IsCleared (after_clear host config t s c)
  after_clear-IsCleared t s (false, d) h f e =
      refused ReceiveResult.failed (record s { database = d }) refl
  after_clear-IsCleared t s (true, d) h f e = ground (
    arith,
    refused ReceiveResult.failed
        (record s {
          database = d;
          reconstruction_status = erase t.recon_key s.reconstruction_status;
        })
        refl,
    cleared,
  )
    where
      cleared : IsCleared t (record s {
        database = d;
        reconstruction_status = erase t.recon_key s.reconstruction_status;
        disk = erase t.reconstructed_file_path s.disk;
      })
      cleared = record {
        inactive = f refl;
        same_chunk = h.same_chunk;
        named = h.named;
        same_path = h.same_path;
        hash_matches = h.hash_matches;
        known = ground (arith, h.known, e);
      }

  clear-IsCleared :
      (t : Transfer) (s : FileReceiver)
      → s.database.active ≡ false
      → Ready t s
      → Ends Answered IsCleared (clear_old host config t s)
  unfolding clear_old
  clear-IsCleared t s a h = ground (
    arith,
    kept t s a h,
    after_clear-IsCleared t s (clear_rows host config t s.database) h
        (cleared-inactive t s.database a),
  )
    where
      kept :
          (t : Transfer) (s : FileReceiver)
          → s.database.active ≡ false
          → Ready t s
          → (t.replace_reconstructed_file || t.reset_partial_transfer) ≡ false
          → IsCleared t s
      kept t s a h e = record {
        inactive = a;
        same_chunk = h.same_chunk;
        named = h.named;
        same_path = h.same_path;
        hash_matches = h.hash_matches;
        known = ground (arith, h.known, e);
      }

  -- The bytes stand in the file.
  pub record IsPlaced (t : Transfer) (s : FileReceiver) : Type 0 where
    pub cleared : IsCleared t s
    pub content : Bytes
    pub on_disk : s.disk (path_of host config chunk bytes before t.filename) ≡ some content
    pub in_place : slice chunk.chunk_offset (length bytes) content ≡ bytes

  with_disk :
      (t : Transfer) (s : FileReceiver) (disk : Map Bytes)
      → IsCleared t s
      → IsCleared t (record s { disk = disk })
  with_disk t s disk h = record {
    inactive = h.inactive;
    same_chunk = h.same_chunk;
    named = h.named;
    same_path = h.same_path;
    hash_matches = h.hash_matches;
    known = h.known;
  }

  after_write-IsPlaced :
      (t : Transfer) (s : FileReceiver) (w : Bool × Map Bytes)
      → IsCleared t s
      → (w.0 ≡ true
          → (content : Bytes) × (w.1 t.reconstructed_file_path ≡ some content)
            × (slice t.chunk.chunk_offset (length bytes) content ≡ bytes))
      → Ends Answered IsPlaced (after_write host config t s w)
  after_write-IsPlaced t s (false, disk) h f =
      refused ReceiveResult.failed (record s { disk = disk }) refl
  after_write-IsPlaced t s (true, disk) h f = record {
    cleared = with_disk t s disk h;
    content = (f refl).0;
    on_disk = ap disk (sym h.same_path) ∙ (f refl).1;
    in_place =
        ap (λ c. slice c.chunk_offset (length bytes) (f refl).0) (sym h.same_chunk) ∙ (f refl).2;
  }

  after_prepare-IsPlaced :
      (t : Transfer) (s : FileReceiver) (p : Bool × Map Bytes)
      → IsCleared t s
      → Ends Answered IsPlaced (after_prepare host config bytes t s p)
  after_prepare-IsPlaced t s (false, disk) h =
      refused ReceiveResult.failed (record s { disk = disk }) refl
  after_prepare-IsPlaced t s (true, disk) h =
      after_write-IsPlaced t (record s { disk = disk })
        (write_chunk host t.reconstructed_file_path t.chunk.chunk_offset bytes disk)
        (with_disk t s disk h)
        (write_chunk_lem host t.reconstructed_file_path t.chunk.chunk_offset bytes disk)

  pub write-IsPlaced :
      (t : Transfer) (s : FileReceiver)
      → s.database.active ≡ false
      → Ready t s
      → Ends Answered IsPlaced (write_to_file host config bytes t s)
  unfolding write_to_file prepare_and_write
  write-IsPlaced t s a h =
      and_then-Ends Answered IsCleared IsPlaced (prepare_and_write host config bytes)
        (clear_old host config t s) (clear-IsCleared t s a h)
        (λ t s g.
          after_prepare-IsPlaced t s
            (prepare_output_file_for_chunk host config t.chunk (length bytes)
              (host.parent_path t.reconstructed_file_path) t.reconstructed_file_path
              (target_file_size t.chunk bytes) s.disk)
            g)

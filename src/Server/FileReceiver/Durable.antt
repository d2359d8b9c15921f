-- ===== src/Server/FileReceiver/Durable.antt =====
-- What an acknowledged chunk has left behind (receiveChunk of ServerUDTC++_v3/FileReceiver.cpp).
use transfer_udt.Common.{
  ◌≡◌, refl, sym, ap, subst, ◌∙◌, inr, Bool, true, false, length, if◌then◌else◌, arith,
}
use transfer_udt.Common.Int.{ℤ}
use transfer_udt.Common.Bytes.{Bytes}
use transfer_udt.ChunkMetadata.{ChunkMetadata}
use transfer_udt.ThreadPool.{ThreadPool, Result, ok, err, add_task}
use transfer_udt.Server.Database.{get_chunks_for_file, get_total_chunk_count, is_chunk_successful}
use transfer_udt.Server.FileReceiver.{
  ReceiveResult, Host, ServerConfig, Finalization, FileReceiver, Transfer, Progress, returns,
  and_then,
}
use transfer_udt.Server.FileReceiver.Receive.{
  directory_of, start, select_filename, verify_hash, check_duplicate,
}
use transfer_udt.Server.FileReceiver.Receive.Store.{
  write_to_file, file_key, left_of, count_down, complete, enqueued, finalization_of, is_set,
  update_database, count_stored, account, check_completion, accept_chunk, receive_chunk,
}
use transfer_udt.Server.Database.Settled.{IsSettled}
use transfer_udt.Server.FileReceiver.Checked.{
  Ends, and_then-Ends, is_chunk_taken, path_of, IsChecked, IsKept, IsVerified, IsNamed,
  select-IsNamed, completion-IsChecked, hash-IsVerified,
}
use transfer_udt.Server.FileReceiver.Ready.{
  IsStored, IsAnswered, IsReady, weaken, duplicate-IsReady,
}
use transfer_udt.Server.FileReceiver.Placed.{IsPlaced, write-IsPlaced}
use transfer_udt.Server.FileReceiver.Recorded.{IsRecorded, update-IsRecorded}

module _ (host : Host) (config : ServerConfig) (chunk : ChunkMetadata) (bytes : Bytes)
    (before : FileReceiver) where
  abbrev Answered : ReceiveResult → FileReceiver → Type 0
  Answered = IsAnswered host config chunk bytes before

  abbrev Kept : ReceiveResult → FileReceiver → Type 0
  Kept = IsKept host config chunk bytes before

  abbrev Named : Transfer → FileReceiver → Type 0
  Named = IsNamed host config chunk bytes before

  abbrev Checked : Transfer → FileReceiver → Type 0
  Checked = IsChecked host config chunk bytes before

  abbrev Verified : Transfer → FileReceiver → Type 0
  Verified = IsVerified host config chunk bytes before

  abbrev Ready : Transfer → FileReceiver → Type 0
  Ready = IsReady host config chunk bytes before

  abbrev Placed : Transfer → FileReceiver → Type 0
  Placed = IsPlaced host config chunk bytes before

  weakened :
      (C : Transfer → FileReceiver → Type 0) (p : Progress) → Ends Kept C p → Ends Answered C p
  weakened = weaken host config chunk bytes before

  abbrev Recorded : Transfer → FileReceiver → Type 0
  Recorded = IsRecorded host config chunk bytes before

  -- What follows keeps the database and the disk.
  answered :
      (t : Transfer) (s : FileReceiver) (r : ReceiveResult) (s' : FileReceiver)
      → Recorded t s
      → s'.database ≡ s.database
      → s'.disk ≡ s.disk
      → Answered r s'
  unfolding IsAnswered
  answered t s r s' h d k _ = record {
    filename = t.filename;
    named = h.named;
    successful =
        ap (λ e. is_chunk_successful (directory_of chunk) t.filename chunk.chunk_number e.tables) d
        ∙ (ap
              (λ c.
                is_chunk_successful (directory_of c) c.filename c.chunk_number s.database.tables)
              (sym h.same_chunk)
            ∙ h.successful);
    how = inr (record {
      committed = ap (λ e. e.saved) d ∙ h.stored.committed;
      hash_matches = h.stored.hash_matches;
      content = h.stored.content;
      on_disk =
          ap (λ m. m (path_of host config chunk bytes before t.filename)) k ∙ h.stored.on_disk;
      in_place = h.stored.in_place;
    });
  }

  abbrev Nothing : Transfer → FileReceiver → Type 0
  Nothing t s = Unit

  Keeps : FileReceiver → FileReceiver → Type 0
  Keeps s s' = (s'.database ≡ s.database) × (s'.disk ≡ s.disk)

  enqueued-Keeps :
      (key : Bytes) (s : FileReceiver) (p : Result (ThreadPool Finalization))
      → Keeps s (enqueued key s p)
  unfolding Keeps
  enqueued-Keeps key s (ok pool) = (refl, refl)
  enqueued-Keeps key s (err e) = (refl, refl)

  if-Keeps : (b : Bool) (s s' : FileReceiver) → Keeps s s' → Keeps s (if b then s else s')
  unfolding Keeps
  if-Keeps true s s' h = (refl, refl)
  if-Keeps false s s' h = h

  complete-Keeps : (t : Transfer) (s : FileReceiver) → Keeps s (complete t s)
  unfolding Keeps
  complete-Keeps t s =
      if-Keeps (is_set (s.reconstruction_status (file_key t))) s
        (enqueued (file_key t) s (add_task Finalization (finalization_of t) s.thread_pool))
        (enqueued-Keeps (file_key t) s (add_task Finalization (finalization_of t) s.thread_pool))

  count-answered :
      (declared : ℤ) (t : Transfer) (s : FileReceiver)
      → Recorded t s
      → Ends Answered Nothing (count_stored host config declared t s)
  unfolding Keeps
  count-answered declared t s h = ground (
    arith,
    answered t s ReceiveResult.stored
        (count_down (file_key t)
          (left_of declared (
            length (get_chunks_for_file (directory_of t.chunk) t.chunk.filename s.database.tables)))
          s)
        h refl refl,
    answered t s ReceiveResult.just_completed (complete t s) h (complete-Keeps t s).0
        (complete-Keeps t s).1,
  )

  account-answered :
      (t : Transfer) (s : FileReceiver)
      → Recorded t s
      → Ends Answered Nothing (account host config t s)
  unfolding account
  account-answered t s h = ground (
    arith,
    answered t s ReceiveResult.stored s h refl refl,
    count-answered t.chunk.total_chunk t s h,
    count-answered (get_total_chunk_count (directory_of t.chunk) t.chunk.filename s.database.tables)
        t s h,
  )

  completion-answered :
      IsSettled before.database.tables
      → (t : Transfer) (s : FileReceiver) → Named t s
      → Ends Answered Checked (check_completion host config t s)
  completion-answered settled t s h =
      weakened Checked (check_completion host config t s)
        (completion-IsChecked host config chunk bytes before settled t s h)

  accept-IsPlaced :
      IsSettled before.database.tables
      → before.database.active ≡ false
      → (t : Transfer) (s : FileReceiver) → IsNamed host config chunk bytes before t s
      → Ends Answered Placed (accept_chunk host config bytes t s)
  unfolding accept_chunk
  accept-IsPlaced settled a t s h =
      and_then-Ends Answered Ready Placed (write_to_file host config bytes)
        (and_then (and_then (check_completion host config t s) (verify_hash host config bytes))
          (check_duplicate host config))
        (and_then-Ends Answered Verified Ready (check_duplicate host config)
          (and_then (check_completion host config t s) (verify_hash host config bytes))
          (and_then-Ends Answered Checked Verified (verify_hash host config bytes)
            (check_completion host config t s) (completion-answered settled t s h)
            (λ t s g.
              weakened Verified (verify_hash host config bytes t s)
                (hash-IsVerified host config chunk bytes before t s g)))
          (duplicate-IsReady host config chunk bytes before))
        (λ t s g.
          write-IsPlaced host config chunk bytes before t s (ap (λ d. d.active) g.database_kept ∙ a)
            g)

  receive-answered :
      IsSettled before.database.tables
      → before.database.active ≡ false
      → Ends Answered Nothing (receive_chunk host config chunk bytes before)
  unfolding receive_chunk
  receive-answered settled a =
      and_then-Ends Answered Recorded Nothing (account host config)
        (and_then
          (and_then (select_filename host config (start host config chunk) before)
            (accept_chunk host config bytes))
          (update_database host config))
        (and_then-Ends Answered Placed Recorded (update_database host config)
          (and_then (select_filename host config (start host config chunk) before)
            (accept_chunk host config bytes))
          (and_then-Ends Answered Named Placed (accept_chunk host config bytes)
            (select_filename host config (start host config chunk) before)
            (weakened Named (select_filename host config (start host config chunk) before)
              (select-IsNamed host config chunk bytes before))
            (accept-IsPlaced settled a))
          (update-IsRecorded host config chunk bytes before))
        account-answered

  -- Whatever fails during the call: from a database with no open transaction, in which no completed
  -- file has rows, a chunk that is answered by Stored or JustCompleted has a successful row, under
  -- its own filename or, where changed files are versioned, under the version noted for its file or
  -- a version made of its filename; and either it had that row before and nothing was written, or
  -- the row is committed, the hash matched and the bytes of the chunk stand at its offset in the file
  -- of that name.
  pub acknowledged_durable :
      (r : ReceiveResult) (after : FileReceiver)
      → IsSettled before.database.tables
      → before.database.active ≡ false
      → receive_chunk host config chunk bytes before ≡ returns r after
      → is_chunk_taken r ≡ true
      → IsStored host config chunk bytes before after
  unfolding IsAnswered
  acknowledged_durable r after settled a e =
      subst (Ends Answered Nothing) e (receive-answered settled a)

-- ===== src/Server/FileReceiver/Kept.antt =====
-- A whole call of receiveChunk and a sound database (ServerUDTC++_v3/FileReceiver.cpp).
use transfer_udt.Common.{◌≡◌, refl, sym, ap, subst, false, Option, none, some, arith}
use transfer_udt.Common.Int.{ℤ}
use transfer_udt.Common.Bytes.{Bytes}
use transfer_udt.ChunkMetadata.{ChunkMetadata}
use transfer_udt.ThreadPool.{ThreadPool, Result, ok, err, add_task}
use transfer_udt.Server.Database.{
  Status, ChunkRow, Database, insert_row, insert_chunk, update_rows, update_chunk_status,
  is_file_reconstructed, get_total_chunk_count, restored,
}
use transfer_udt.Server.Database.Settled.{IsSettled, update_rows-IsSettled, insert_row-IsSettled}
use transfer_udt.Server.FileReceiver.{
  ReceiveResult, Host, ServerConfig, Finalization, FileReceiver, Transfer, returns, and_then,
}
use transfer_udt.Server.FileReceiver.Receive.{
  directory_of, is_versioned, start, select_filename, check_reconstructed, check_partial,
  check_on_disk, check_status, verify_hash, check_duplicate,
}
use transfer_udt.Server.FileReceiver.Receive.Store.{
  write_to_file, file_key, new_row, stored_row, mark_success, insert_then_mark, update_database,
  count_stored, complete, enqueued, finalization_of, account, check_completion, accept_chunk,
  receive_chunk,
}
use transfer_udt.Server.FileReceiver.Checked.{Ends, and_then-Ends}
use transfer_udt.Server.FileReceiver.Sound.{IsSound}
use transfer_udt.Server.FileReceiver.Freed.{write-IsFree}
use transfer_udt.Server.FileReceiver.Preserved.{
  Sound, IsNamed, IsOpen, IsFree, start-IsNamed, select-IsNamed, reconstructed-IsOpen,
  partial-IsOpen, on_disk-IsOpen, status-IsOpen, hash-IsOpen, duplicate-IsOpen,
}

-- New tables outside of a transaction.
written-IsSound :
    (d e : Database) → e.active ≡ false → e.saved ≡ none → IsSettled e.tables → IsSound e
written-IsSound d e a n h = record {
  inactive = a;
  visible = h;
  durable = subst IsSettled (sym (ap (λ s. restored s e.tables) n)) h;
}

update_lem :
    (client filename : Bytes) (number : ℤ) (status : Status) (d e : Database)
    → d.active ≡ false
    → update_chunk_status client filename number status d ≡ some e
    → (e.active ≡ false)
      × (e.saved ≡ none)
      × (e.tables ≡ update_rows client filename number status d.tables)
unfolding update_chunk_status
update_lem client filename number status d e a u = ground (arith, a, u)

update-IsSound :
    (client filename : Bytes) (number : ℤ) (status : Status) (d e : Database)
    → IsSound d
    → update_chunk_status client filename number status d ≡ some e
    → IsSound e
update-IsSound client filename number status d e h u =
    written-IsSound d e (update_lem client filename number status d e h.inactive u).0
      (update_lem client filename number status d e h.inactive u).1
      (subst IsSettled (sym (update_lem client filename number status d e h.inactive u).2)
        (update_rows-IsSettled client filename number status d.tables h.visible))

insert_lem :
    (r : ChunkRow) (d e : Database)
    → d.active ≡ false
    → insert_chunk r d ≡ some e
    → (e.active ≡ false) × (e.saved ≡ none) × (insert_row r d.tables ≡ some e.tables)
unfolding insert_chunk
insert_lem r d e a u = ground (arith, a, u)

insert-IsSound :
    (r : ChunkRow) (d e : Database)
    → IsSound d
    → is_file_reconstructed r.client_address r.filename d.tables ≡ false
    → insert_chunk r d ≡ some e
    → IsSound e
insert-IsSound r d e h n u =
    written-IsSound d e (insert_lem r d e h.inactive u).0 (insert_lem r d e h.inactive u).1
      (insert_row-IsSettled r d.tables e.tables n (insert_lem r d e h.inactive u).2 h.visible)

module _ (host : Host) (config : ServerConfig)
    (fixed : is_versioned config.changed_files_server_policy ≡ false) where
  abbrev Good : ReceiveResult → FileReceiver → Type 0
  Good = Sound host config fixed

  abbrev After : Transfer → FileReceiver → Type 0
  After t s = IsSound s.database

  abbrev Named : Transfer → FileReceiver → Type 0
  Named = IsNamed host config fixed

  abbrev Open : Transfer → FileReceiver → Type 0
  Open = IsOpen host config fixed

  abbrev Free : Transfer → FileReceiver → Type 0
  Free = IsFree host config fixed

  stored_row-After :
      (t : Transfer) (s : FileReceiver) (d : Option Database)
      → IsSound s.database
      → ((e : Database) → d ≡ some e → IsSound e)
      → Ends Good After (stored_row t s d)
  unfolding Sound
  stored_row-After t s none h k = h
  stored_row-After t s (some e) h k = k e refl

  mark-After :
      (t : Transfer) (s : FileReceiver)
      → IsSound s.database
      → Ends Good After (mark_success host config t s)
  unfolding Sound
  mark-After t s h = ground (
    arith,
    h,
    stored_row-After t s
        (update_chunk_status (directory_of t.chunk) t.chunk.filename t.chunk.chunk_number
          Status.success s.database)
        h
        (λ e.
          update-IsSound (directory_of t.chunk) t.chunk.filename t.chunk.chunk_number Status.success
            s.database e h),
  )

  insert-After :
      (t : Transfer) (s : FileReceiver)
      → Free t s
      → Ends Good After (insert_then_mark host config t s)
  unfolding Sound
  insert-After t s h = ground (
    arith,
    h.named.sound,
    and_then-Ends Good After After (mark_success host config)
        (stored_row t s (insert_chunk (new_row t) s.database))
        (stored_row-After t s (insert_chunk (new_row t) s.database) h.named.sound
          (λ e. insert-IsSound (new_row t) s.database e h.named.sound free))
        mark-After,
  )
    where
      free : is_file_reconstructed (directory_of t.chunk) t.chunk.filename s.database.tables ≡ false
      free = rw (h.named.same_directory, h.named.same_filename) h.free

  update-After :
      (t : Transfer) (s : FileReceiver)
      → Free t s
      → Ends Good After (update_database host config t s)
  unfolding update_database Sound
  update-After t s h =
      ground (arith, h.named.sound, mark-After t s h.named.sound, insert-After t s h)

  enqueued-database :
      (key : Bytes) (s : FileReceiver) (p : Result (ThreadPool Finalization))
      → (enqueued key s p).database ≡ s.database
  enqueued-database key s (ok pool) = refl
  enqueued-database key s (err e) = refl

  complete-database : (t : Transfer) (s : FileReceiver) → (complete t s).database ≡ s.database
  complete-database t s = ground (
    arith,
    enqueued-database (file_key t) s (add_task Finalization (finalization_of t) s.thread_pool),
  )

  count-After :
      (declared : ℤ) (t : Transfer) (s : FileReceiver)
      → IsSound s.database
      → Ends Good After (count_stored host config declared t s)
  unfolding Sound
  count-After declared t s h = ground (arith, h, subst IsSound (sym (complete-database t s)) h)

  account-After :
      (t : Transfer) (s : FileReceiver)
      → IsSound s.database
      → Ends Good After (account host config t s)
  unfolding account Sound
  account-After t s h = ground (
    arith,
    h,
    count-After t.chunk.total_chunk t s h,
    count-After (get_total_chunk_count (directory_of t.chunk) t.chunk.filename s.database.tables) t
        s h,
  )

  completion-Open :
      (t : Transfer) (s : FileReceiver)
      → Named t s
      → Ends Good Open (check_completion host config t s)
  unfolding check_completion
  completion-Open t s h =
      and_then-Ends Good Open Open check_status
        (and_then (and_then (check_reconstructed host config t s) (check_partial host config))
          (check_on_disk host config))
        (and_then-Ends Good Open Open (check_on_disk host config)
          (and_then (check_reconstructed host config t s) (check_partial host config))
          (and_then-Ends Good Open Open (check_partial host config)
            (check_reconstructed host config t s) (reconstructed-IsOpen host config fixed t s h)
            (partial-IsOpen host config fixed))
          (on_disk-IsOpen host config fixed))
        (status-IsOpen host config fixed)

  accept-Free :
      (bytes : Bytes) (t : Transfer) (s : FileReceiver)
      → Named t s
      → Ends Good Free (accept_chunk host config bytes t s)
  unfolding accept_chunk
  accept-Free bytes t s h =
      and_then-Ends Good Open Free (write_to_file host config bytes)
        (and_then (and_then (check_completion host config t s) (verify_hash host config bytes))
          (check_duplicate host config))
        (and_then-Ends Good Open Open (check_duplicate host config)
          (and_then (check_completion host config t s) (verify_hash host config bytes))
          (and_then-Ends Good Open Open (verify_hash host config bytes)
            (check_completion host config t s) (completion-Open t s h)
            (hash-IsOpen host config fixed bytes))
          (duplicate-IsOpen host config fixed))
        (write-IsFree host config fixed bytes)

  receive-Good :
      (chunk : ChunkMetadata) (bytes : Bytes) (s : FileReceiver)
      → IsSound s.database
      → Ends Good After (receive_chunk host config chunk bytes s)
  unfolding receive_chunk
  receive-Good chunk bytes s h =
      and_then-Ends Good After After (account host config)
        (and_then
          (and_then (select_filename host config (start host config chunk) s)
            (accept_chunk host config bytes))
          (update_database host config))
        (and_then-Ends Good Free After (update_database host config)
          (and_then (select_filename host config (start host config chunk) s)
            (accept_chunk host config bytes))
          (and_then-Ends Good Named Free (accept_chunk host config bytes)
            (select_filename host config (start host config chunk) s)
            (select-IsNamed host config fixed (start host config chunk) s
              (start-IsNamed host config fixed chunk s h))
            (accept-Free bytes))
          update-After)
        account-After

  -- Where changed files are not versioned: whatever fails during the call, a database in which no
  -- completed file has rows and no transaction is active is left so by each call that returns, as
  -- the connection sees it and as a restart would find it.
  pub receive_chunk-IsSound :
      (chunk : ChunkMetadata) (bytes : Bytes) (s after : FileReceiver) (r : ReceiveResult)
      → IsSound s.database
      → receive_chunk host config chunk bytes s ≡ returns r after
      → IsSound after.database
  unfolding Sound
  receive_chunk-IsSound chunk bytes s after r h e =
      subst (Ends Good After) e (receive-Good chunk bytes s h)

-- ===== src/Server/FileReceiver/Refused.antt =====
-- A chunk whose hash does not match (receiveChunk of ServerUDTC++_v3/FileReceiver.cpp).
use transfer_udt.Common.{◌≡◌, ◌≢◌, ◌⊎◌, inl, inr, refl, subst, false, arith}
use transfer_udt.Common.Bytes.{Bytes}
use transfer_udt.ChunkMetadata.{ChunkMetadata}
use transfer_udt.Server.FileReceiver.{
  ReceiveResult, Host, ServerConfig, FileReceiver, Transfer, Progress, returns, throws, continues,
  and_then,
}
use transfer_udt.Server.FileReceiver.Receive.{start, select_filename, verify_hash, check_duplicate}
use transfer_udt.Server.FileReceiver.Receive.Store.{
  write_to_file, check_completion, accept_chunk, update_database, account, receive_chunk,
}
use transfer_udt.Server.Database.Settled.{IsSettled}
use transfer_udt.Server.FileReceiver.Checked.{
  Ends, and_then-Ends, is_chunk_taken, IsChecked, IsKept, IsVerified, IsNamed, select-IsNamed,
  completion-IsChecked, hash-IsVerified,
}

abbrev Never : Transfer → FileReceiver → Type 0
Never t s = ⊥

module _ (host : Host) (config : ServerConfig) (chunk : ChunkMetadata) (bytes : Bytes)
    (before : FileReceiver) (mismatch : host.calculate_chunk_hash bytes ≢ chunk.hash) where
  abbrev Kept : ReceiveResult → FileReceiver → Type 0
  Kept = IsKept host config chunk bytes before

  abbrev Checked : Transfer → FileReceiver → Type 0
  Checked = IsChecked host config chunk bytes before

  stop :
      (p : Progress) → Ends Kept (IsVerified host config chunk bytes before) p → Ends Kept Never p
  stop (returns r s) h = h
  stop (throws s) h = tt
  stop (continues t s) h = mismatch h.hash_matches

  -- Nothing goes on after the hash.
  skip :
      (next : Transfer → FileReceiver → Progress) (p : Progress)
      → Ends Kept Never p
      → Ends Kept Never (and_then p next)
  skip next p h = and_then-Ends Kept Never Never next p h (λ t s n. absurd n)

  accept-refused :
      IsSettled before.database.tables
      → (t : Transfer) (s : FileReceiver) → IsNamed host config chunk bytes before t s
      → Ends Kept Never (accept_chunk host config bytes t s)
  unfolding accept_chunk
  accept-refused settled t s h =
      skip (write_to_file host config bytes)
        (and_then (and_then (check_completion host config t s) (verify_hash host config bytes))
          (check_duplicate host config))
        (skip (check_duplicate host config)
          (and_then (check_completion host config t s) (verify_hash host config bytes))
          (and_then-Ends Kept Checked Never (verify_hash host config bytes)
            (check_completion host config t s)
            (completion-IsChecked host config chunk bytes before settled t s h)
            (λ t s g.
              stop (verify_hash host config bytes t s)
                (hash-IsVerified host config chunk bytes before t s g))))

  receive-refused :
      IsSettled before.database.tables
      → Ends Kept Never (receive_chunk host config chunk bytes before)
  unfolding receive_chunk
  receive-refused settled =
      skip (account host config)
        (and_then
          (and_then (select_filename host config (start host config chunk) before)
            (accept_chunk host config bytes))
          (update_database host config))
        (skip (update_database host config)
          (and_then (select_filename host config (start host config chunk) before)
            (accept_chunk host config bytes))
          (and_then-Ends Kept (IsNamed host config chunk bytes before) Never
            (accept_chunk host config bytes)
            (select_filename host config (start host config chunk) before)
            (select-IsNamed host config chunk bytes before) (accept-refused settled)))

  failed_or_completed :
      (r : ReceiveResult)
      → is_chunk_taken r ≡ false
      → (r ≡ ReceiveResult.failed) ⊎ (r ≡ ReceiveResult.already_completed)
  failed_or_completed ReceiveResult.failed h = inl refl
  failed_or_completed ReceiveResult.already_completed h = inr refl
  failed_or_completed ReceiveResult.stored h = absurd (ground (arith, h))
  failed_or_completed ReceiveResult.just_completed h = absurd (ground (arith, h))

  -- Where no completed file has rows, a call with a chunk whose hash does not match returns, if it
  -- returns, Failed or AlreadyCompleted (which is decided before the hash is computed), and neither
  -- the database nor the disk changes.
  pub hash_mismatch_refused :
      (r : ReceiveResult) (after : FileReceiver)
      → IsSettled before.database.tables
      → receive_chunk host config chunk bytes before ≡ returns r after
      → ((r ≡ ReceiveResult.failed) ⊎ (r ≡ ReceiveResult.already_completed))
        × (after.database ≡ before.database)
        × (after.disk ≡ before.disk)
  hash_mismatch_refused r after settled e =
      (failed_or_completed r h.refused, h.database_kept, h.disk_kept)
    where
      h : Kept r after
      h = subst (Ends Kept Never) e (receive-refused settled)

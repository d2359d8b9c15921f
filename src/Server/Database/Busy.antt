-- ===== src/Server/Database/Busy.antt =====
-- A COMMIT that fails as busy (ServerUDTC++_v3/Database.cpp).
use transfer_udt.Common.{◌≡◌, Bool, true, none, some, arith}
use transfer_udt.Common.Int.{ℤ}
use transfer_udt.Common.Bytes.{Bytes}
use transfer_udt.Server.Database.{
  Status, ChunkRow, Tables, Database, Commit, begin_transaction, commit_transaction,
  rollback_transaction, insert_chunk, update_chunk_status,
}

-- After a COMMIT that fails as busy, the rollback of the caller changes nothing: the connection still
-- shows the changes of the transaction, and it can neither begin another one nor write a row.
pub busy_commit_blocks :
    (fails : Bool) (d : Database) (before : Tables) (r : ChunkRow) (client filename : Bytes)
    (number : ℤ) (status : Status)
    → d.active ≡ true
    → d.saved ≡ some before
    → let e = (rollback_transaction fails (commit_transaction Commit.busy d).1).1 in
      (e.tables ≡ d.tables)
      × (begin_transaction e ≡ none)
      × (insert_chunk r e ≡ none)
      × (update_chunk_status client filename number status e ≡ none)
unfolding begin_transaction commit_transaction rollback_transaction insert_chunk update_chunk_status
busy_commit_blocks fails d before r client filename number status a s = ground (arith, a, s)

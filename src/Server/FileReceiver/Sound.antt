-- ===== src/Server/FileReceiver/Sound.antt =====
-- What a sound database is, and the finalization (ServerUDTC++_v3/FileReceiver.cpp).
use transfer_udt.Common.{
  ◌≡◌, refl, Bool, sym, subst, ◌⊎◌, inl, inr, true, false, List, if◌then◌else◌, arith,
}
use transfer_udt.Server.Database.{
  ChunkRow, Tables, Database, begin_transaction, commit_transaction, rollback_transaction,
  add_reconstructed_file, delete_reconstructed_file, delete_chunks_by_file, get_chunks_for_file,
}
use transfer_udt.Server.Database.Settled.{IsSettled, completed-IsSettled}
use transfer_udt.Server.FileReceiver.{
  Call, Host, ServerConfig, Finalization, FileReceiver, Transfer,
}
use transfer_udt.Server.FileReceiver.Receive.Store.{clear_rows}
use transfer_udt.Server.FileReceiver.Finalize.{
  managed_row, finalize_rows, after_rows, try_reconstruct_file,
}
use transfer_udt.Server.FileReceiver.Completed.{committed}

-- No transaction of the class is active, and no completed file has rows, neither as the connection
-- sees the tables nor as a restart would find them.
pub record IsSound (d : Database) : Type 0 where
  pub inactive : d.active ≡ false
  pub visible : IsSettled d.tables
  pub durable : IsSettled (committed d)

-- Tables that stayed or became others.
either-IsSettled :
    (t old new : Tables) → (t ≡ old) ⊎ (t ≡ new) → IsSettled old → IsSettled new → IsSettled t
either-IsSettled t old new (inl e) h k = subst IsSettled (sym e) h
either-IsSettled t old new (inr e) h k = subst IsSettled (sym e) k

-- The tables stayed, are the ones between two statements of the transaction, or the new ones; a
-- restart finds those from before or the new ones.
pub record IsMoved (d : Database) (between new : Tables) (after : Database) : Type 0 where
  pub inactive : after.active ≡ false
  pub tables : (after.tables ≡ d.tables) ⊎ (after.tables ≡ between) ⊎ (after.tables ≡ new)
  pub committed_tables : (committed after ≡ committed d) ⊎ (committed after ≡ new)

pub moved-IsSound :
    (d : Database) (between new : Tables) (after : Database)
    → IsMoved d between new after
    → IsSettled between
    → IsSettled new
    → IsSound d
    → IsSound after
moved-IsSound d between new after m b k h = record {
  inactive = m.inactive;
  visible = visible m.tables;
  durable = either-IsSettled (committed after) (committed d) new m.committed_tables h.durable k;
}
  where
    visible :
        (after.tables ≡ d.tables) ⊎ (after.tables ≡ between) ⊎ (after.tables ≡ new)
        → IsSettled after.tables
    visible (inl e) = subst IsSettled (sym e) h.visible
    visible (inr (inl e)) = subst IsSettled (sym e) b
    visible (inr (inr e)) = subst IsSettled (sym e) k

module _ (host : Host) (config : ServerConfig) where
  abbrev new_tables : Finalization → List ChunkRow → Tables → Tables
  new_tables f chunks t =
      delete_chunks_by_file f.client_address f.filename
        (add_reconstructed_file (managed_row host config f chunks) t)

  -- What a finalization leaves; where its ROLLBACK fails, the connection may show half of it.
  record IsLeft (d : Database) (new : Tables) (after : Database) : Type 0 where
    inactive : after.active ≡ false
    tables :
        ((after.tables ≡ d.tables) ⊎ (after.tables ≡ new))
        ⊎ (host.works Call.rollback_transaction ≡ false)
    committed_tables : (committed after ≡ committed d) ⊎ (committed after ≡ new)

  finalize_rows-IsLeft :
      (f : Finalization) (chunks : List ChunkRow) (d : Database)
      → d.active ≡ false
      → IsLeft d (new_tables f chunks d.tables) (finalize_rows host config f chunks d).1
  unfolding finalize_rows begin_transaction commit_transaction rollback_transaction
  finalize_rows-IsLeft f chunks d a = record {
    inactive = ground (arith, a);
    tables = ground (arith, a);
    committed_tables = ground (arith, a);
  }

  -- No transaction of the class is active; a restart finds no completed file with rows; nor does the
  -- connection, unless a ROLLBACK failed.
  abbrev pub IsSettledOrLeft : Database → Type 0
  IsSettledOrLeft d =
      (d.active ≡ false)
      × IsSettled (committed d)
      × (IsSettled d.tables ⊎ (host.works Call.rollback_transaction ≡ false))

  left-IsSettledOrLeft :
      (d : Database) (new : Tables) (after : Database)
      → IsLeft d new after
      → IsSettled new
      → IsSound d
      → IsSettledOrLeft after
  left-IsSettledOrLeft d new after m k h = (
    m.inactive,
    either-IsSettled (committed after) (committed d) new m.committed_tables h.durable k,
    visible m.tables,
  )
    where
      visible :
          ((after.tables ≡ d.tables) ⊎ (after.tables ≡ new))
            ⊎ (host.works Call.rollback_transaction ≡ false)
          → IsSettled after.tables ⊎ (host.works Call.rollback_transaction ≡ false)
      visible (inl e) = inl (either-IsSettled after.tables d.tables new e h.visible k)
      visible (inr e) = inr e

  after_rows-database :
      (f : Finalization) (s : FileReceiver) (c : Bool × Database)
      → (after_rows host config f s c).database ≡ c.1
  after_rows-database f s (true, d) = refl
  after_rows-database f s (false, d) = refl

  abbrev chunks_of : Finalization → FileReceiver → List ChunkRow
  chunks_of f s = get_chunks_for_file f.client_address f.filename s.database.tables

  -- A finalization that starts from a database in which no completed file has rows and no transaction
  -- is active, whatever fails in it: no transaction of the class is active after it, a restart finds no
  -- completed file with rows, and the connection sees none either, unless ROLLBACK fails.
  pub try_reconstruct_file-IsSettledOrLeft :
      (f : Finalization) (s : FileReceiver)
      → IsSound s.database
      → IsSettledOrLeft (try_reconstruct_file host config f s).database
  unfolding try_reconstruct_file
  try_reconstruct_file-IsSettledOrLeft f s h = ground (
    arith,
    h,
    subst IsSettledOrLeft
        (sym (after_rows-database f s (finalize_rows host config f (chunks_of f s) s.database)))
        (left-IsSettledOrLeft s.database (new_tables f (chunks_of f s) s.database.tables)
          (finalize_rows host config f (chunks_of f s) s.database).1
          (finalize_rows-IsLeft f (chunks_of f s) s.database h.inactive)
          (completed-IsSettled (managed_row host config f (chunks_of f s)) s.database.tables
            h.visible)
          h),
  )

  abbrev pub without_output : Transfer → Tables → Tables
  without_output t tables =
      if t.replace_reconstructed_file
      then delete_reconstructed_file t.cl_dir_key t.filename tables
      else tables

  abbrev pub cleared_tables : Transfer → Tables → Tables
  cleared_tables t tables = delete_chunks_by_file t.cl_dir_key t.filename (without_output t tables)

  pub clear_rows-IsMoved :
      (t : Transfer) (d : Database)
      → d.active ≡ false
      → IsMoved d
          (without_output t d.tables)
          (cleared_tables t d.tables)
          (clear_rows host config t d).1
  unfolding begin_transaction commit_transaction rollback_transaction
  clear_rows-IsMoved t d a = record {
    inactive = ground (arith, a);
    tables = ground (arith, a);
    committed_tables = ground (arith, a);
  }

  pub clear_rows_lem :
      (t : Transfer) (d : Database)
      → d.active ≡ false
      → (clear_rows host config t d).0 ≡ true
      → (clear_rows host config t d).1.tables ≡ cleared_tables t d.tables
  unfolding begin_transaction commit_transaction rollback_transaction
  clear_rows_lem t d a e = ground (arith, a, e)

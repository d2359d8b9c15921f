-- ===== src/Server/FileReceiver/Completed.antt =====
-- When a file is finalized, and what that leaves in the tables (tryReconstructFile of
-- ServerUDTC++_v3/FileReceiver.cpp).
use transfer_udt.Common.{
  ℕ, suc, ◌+◌, ◌≤◌, ◌<◌, ◌≡◌, refl, sym, ◌∙◌, ◌⊎◌, Bool, true, false, ◌&&◌, List, [], ◌∷◌, length,
  arith,
}
use transfer_udt.Common.Int.{ℤ, pos, int_eq, int_eq_iff}
use transfer_udt.Server.Database.{
  ChunkRow, Tables, Database, of_stored, select, begin_transaction, commit_transaction,
  rollback_transaction, restored, add_reconstructed_file, delete_chunks_by_file,
  get_chunks_for_file,
}
use transfer_udt.Server.Database.Rows.{length-select_chunks}
use transfer_udt.Server.FileReceiver.{Host, ServerConfig, Finalization, FileReceiver}
use transfer_udt.Server.FileReceiver.Finalize.{
  is_complete, in_sequence, managed_row, finalize_rows, try_reconstruct_file,
}

-- The tables that a restart of the server would find.
abbrev pub committed : Database → Tables
committed d = restored d.saved d.tables

-- The tables once the file is complete.
abbrev pub finalized : Host → ServerConfig → Finalization → Tables → Tables
finalized host config f t = delete_chunks_by_file f.client_address f.filename (
    add_reconstructed_file
      (managed_row host config f (get_chunks_for_file f.client_address f.filename t)) t)

abbrev has_number : ℤ → ChunkRow → Bool
has_number n r = int_eq r.chunk_number n

-- A sequence from `i` on has each number once.
sequence_beyond :
    (i n : ℕ) (rows : List ChunkRow)
    → in_sequence i rows ≡ true
    → n < i
    → length (select (has_number (pos n)) rows) ≡ 0
sequence_beyond i n [] s h = refl
sequence_beyond i n (r ∷ rest) s h =
    ground (arith, int_eq_iff r.chunk_number (pos i), sequence_beyond (suc i) n rest)

sequence_once :
    (i n : ℕ) (rows : List ChunkRow)
    → in_sequence i rows ≡ true
    → i ≤ n
    → n < i + length rows
    → length (select (has_number (pos n)) rows) ≡ 1
sequence_once i n [] s l h = absurd (omega arith)
sequence_once i n (r ∷ rest) s l h = ground (
  arith,
  s,
  l,
  h,
  int_eq_iff r.chunk_number (pos i),
  sequence_once (suc i) n rest,
  sequence_beyond (suc i) n rest,
)

module _ (host : Host) (config : ServerConfig) (f : Finalization) where
  finalize_rows_lem :
      (chunks : List ChunkRow) (d : Database)
      → d.active ≡ false
      → (committed (finalize_rows host config f chunks d).1 ≡ committed d)
        ⊎ (committed (finalize_rows host config f chunks d).1
            ≡ delete_chunks_by_file f.client_address f.filename
                (add_reconstructed_file (managed_row host config f chunks) d.tables))
  unfolding finalize_rows begin_transaction commit_transaction rollback_transaction
  finalize_rows_lem chunks d a = ground (arith, a)

-- The stored rows of the file with one number.
abbrev pub stored_with : Finalization → ℕ → Tables → ℕ
stored_with f n t =
    length (select (λ r. of_stored f.client_address f.filename r && has_number (pos n) r) t.chunks)

complete_sequence :
    (chunks : List ChunkRow)
    → is_complete chunks ≡ true
    → (in_sequence 0 chunks ≡ true) × (0 < length chunks)
unfolding is_complete
complete_sequence chunks h = ground (arith, h)

each_once :
    (f : Finalization) (t : Tables) (n : ℕ)
    → is_complete (get_chunks_for_file f.client_address f.filename t) ≡ true
    → n < length (get_chunks_for_file f.client_address f.filename t)
    → stored_with f n t ≡ 1
each_once f t n h l =
    sym (length-select_chunks f.client_address f.filename t (has_number (pos n)))
    ∙ sequence_once 0 n (get_chunks_for_file f.client_address f.filename t)
        (complete_sequence (get_chunks_for_file f.client_address f.filename t) h).0 (omega arith)
        (omega (arith, l))

module _ (host : Host) (config : ServerConfig) (f : Finalization) (s : FileReceiver) where
  abbrev chunks_of : List ChunkRow
  chunks_of = get_chunks_for_file f.client_address f.filename s.database.tables

  -- The file becomes complete: each chunk up to the last was stored once.
  pub record IsFinalized (after : Tables) : Type 0 where
    pub once : (n : ℕ) → n < length chunks_of → stored_with f n s.database.tables ≡ 1
    pub not_empty : 0 < length chunks_of
    pub tables : after ≡ finalized host config f s.database.tables

  complete-IsFinalized :
      (after : Tables)
      → is_complete chunks_of ≡ true
      → after ≡ finalized host config f s.database.tables
      → IsFinalized after
  complete-IsFinalized after h e = record {
    once = λ n l. each_once f s.database.tables n h l;
    not_empty = (complete_sequence chunks_of h).1;
    tables = e;
  }

  -- Whatever fails, the finalization from outside of a transaction commits all of it, and then each
  -- chunk was stored exactly once, or nothing.
  pub finalization_atomic :
      s.database.active ≡ false
      → (committed (try_reconstruct_file host config f s).database ≡ committed s.database)
        ⊎ IsFinalized (committed (try_reconstruct_file host config f s).database)
  unfolding try_reconstruct_file
  finalization_atomic a = ground (
    arith,
    finalize_rows_lem host config f chunks_of s.database a,
    complete-IsFinalized (committed (finalize_rows host config f chunks_of s.database).1),
  )

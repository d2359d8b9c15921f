-- ===== src/Server/FileReceiver/Checked.antt =====
-- What holds between the checks of receiveChunk, before it writes
-- (ServerUDTC++_v3/FileReceiver.cpp).
use transfer_udt.Common.{
  ℕ, ◌⊎◌, inl, inr, ◌≡◌, refl, ap, ◌∙◌, Bool, true, false, not, ◌||◌, ◌==◌, Option, none, some,
  arith,
}
use transfer_udt.Common.Bytes.{Bytes, bytes_eq, bytes_eq_iff}
use transfer_udt.ChunkMetadata.{ChunkMetadata}
use transfer_udt.Server.Database.{get_chunk_row_count, is_chunk_successful}
use transfer_udt.Server.Database.Settled.{IsSettled}
use transfer_udt.Server.FileReceiver.{
  ReceiveResult, Host, ServerConfig, FileReceiver, Transfer, Progress, returns, throws, continues,
  and_then,
}
use transfer_udt.Server.FileReceiver.Names.{
  build_reconstruction_key, build_versioned_filename, get_reconstructed_file_path,
}
use transfer_udt.Server.FileReceiver.Receive.{
  directory_of, is_versioned, start, use_filename, resume_version, continue_versioned,
  select_filename, check_reconstructed, check_partial, check_on_disk, check_status, verify_hash,
}
use transfer_udt.Server.FileReceiver.Receive.Store.{check_completion, check_completion}

-- A condition on each of the three outcomes of a part.
abbrev pub Ends :
    (ReceiveResult → FileReceiver → Type 0) → (Transfer → FileReceiver → Type 0) → Progress → Type 0
Ends R C (returns r s) = R r s
Ends R C (throws s) = Unit
Ends R C (continues t s) = C t s

pub and_then-Ends :
    (R : ReceiveResult → FileReceiver → Type 0) (B C : Transfer → FileReceiver → Type 0)
    (next : Transfer → FileReceiver → Progress) (p : Progress)
    → Ends R B p
    → ((t : Transfer) (s : FileReceiver) → B t s → Ends R C (next t s))
    → Ends R C (and_then p next)
and_then-Ends R B C next (returns r s) h k = h
and_then-Ends R B C next (throws s) h k = tt
and_then-Ends R B C next (continues t s) h k = k t s h

-- The answers Stored and JustCompleted: the chunk itself is taken. AlreadyCompleted says that its
-- file is there.
abbrev pub is_chunk_taken : ReceiveResult → Bool
is_chunk_taken ReceiveResult.stored = true
is_chunk_taken ReceiveResult.just_completed = true
is_chunk_taken ReceiveResult.already_completed = false
is_chunk_taken ReceiveResult.failed = false

abbrev renamed : Bytes → ChunkMetadata → ChunkMetadata
renamed name c = record c { filename = name }

module _ (host : Host) (config : ServerConfig) (chunk : ChunkMetadata) (bytes : Bytes)
    (before : FileReceiver) where
  -- The row of the chunk is successful, under the name it is stored by.
  abbrev pub has_row : Bytes → FileReceiver → Bool
  has_row filename s =
      is_chunk_successful (directory_of chunk) filename chunk.chunk_number s.database.tables

  abbrev pub path_of : Bytes → Bytes
  path_of filename = get_reconstructed_file_path host config (directory_of chunk) filename

  -- The name that the chunk is stored by: its own, or, where changed files are versioned, the version
  -- noted for its file or one that is made of its name.
  abbrev pub IsNameOf : Bytes → Type 0
  IsNameOf name =
      (name ≡ chunk.filename)
      ⊎ ((is_versioned config.changed_files_server_policy ≡ true)
          × ((before.versioned_transfer_filenames
                  (build_reconstruction_key (directory_of chunk) chunk.filename)
                ≡ some name)
              ⊎ ((n : ℕ) × (name ≡ build_versioned_filename host n chunk.filename))))

  -- Before anything is written.
  pub record IsChecked (t : Transfer) (s : FileReceiver) : Type 0 where
    pub database_kept : s.database ≡ before.database
    pub disk_kept : s.disk ≡ before.disk
    pub same_chunk : t.chunk ≡ record chunk { filename = t.filename }
    pub same_directory : t.cl_dir_key ≡ directory_of chunk
    pub same_original : t.original_filename ≡ chunk.filename
    pub named : IsNameOf t.filename
    pub same_path : t.reconstructed_file_path ≡ path_of t.filename
    pub no_rows :
        (not t.replace_reconstructed_file
          || (get_chunk_row_count (directory_of chunk) t.filename before.database.tables == 0))
        ≡ true

  -- Refused, with nothing written.
  pub record IsKept (r : ReceiveResult) (s : FileReceiver) : Type 0 where
    pub database_kept : s.database ≡ before.database
    pub disk_kept : s.disk ≡ before.disk
    pub refused : is_chunk_taken r ≡ false

  pub refuse :
      (t : Transfer) (s : FileReceiver) (r : ReceiveResult)
      → is_chunk_taken r ≡ false
      → IsChecked t s
      → IsKept r s
  refuse t s r e h = record {
    database_kept = h.database_kept;
    disk_kept = h.disk_kept;
    refused = e;
  }

  start-IsChecked : IsChecked (start host config chunk) before
  start-IsChecked = record {
    database_kept = refl;
    disk_kept = refl;
    same_chunk = refl;
    same_directory = refl;
    same_original = refl;
    named = inl refl;
    same_path = refl;
    no_rows = refl;
  }

  use_filename-IsChecked :
      (name : Bytes) (t : Transfer) (s : FileReceiver)
      → t.replace_reconstructed_file ≡ false
      → IsNameOf name
      → IsChecked t s
      → IsChecked (use_filename host config name t) s
  use_filename-IsChecked name t s e n h = record {
    database_kept = h.database_kept;
    disk_kept = h.disk_kept;
    same_chunk = ap (renamed name) h.same_chunk;
    same_directory = h.same_directory;
    same_original = h.same_original;
    named = n;
    same_path = ap (λ d. get_reconstructed_file_path host config d name) h.same_directory;
    no_rows = rw e refl;
  }

  switch-IsChecked :
      (t : Transfer) (s : FileReceiver)
      → t.replace_reconstructed_file ≡ false
      → is_versioned config.changed_files_server_policy ≡ true
      → IsChecked t s
      → Ends IsKept IsChecked (continue_versioned host config t s)
  switch-IsChecked t s e v h = record {
    database_kept = g.database_kept;
    disk_kept = g.disk_kept;
    same_chunk = g.same_chunk;
    same_directory = g.same_directory;
    same_original = g.same_original;
    named = g.named;
    same_path = g.same_path;
    no_rows = g.no_rows;
  }
    where
      g :
          IsChecked
            (use_filename host config
              (build_versioned_filename host s.version_counter t.original_filename)
              t)
            s
      g =
          use_filename-IsChecked
            (build_versioned_filename host s.version_counter t.original_filename) t s e
            (inr (
              v,
              inr (
                s.version_counter,
                ap (build_versioned_filename host s.version_counter) h.same_original,
              ),
            ))
            h

  replace-IsChecked :
      (t : Transfer) (s : FileReceiver)
      → get_chunk_row_count t.cl_dir_key t.filename s.database.tables ≡ 0
      → IsChecked t s
      → IsChecked (record t { replace_reconstructed_file = true }) s
  replace-IsChecked t s e h = record {
    database_kept = h.database_kept;
    disk_kept = h.disk_kept;
    same_chunk = h.same_chunk;
    same_directory = h.same_directory;
    same_original = h.same_original;
    named = h.named;
    same_path = h.same_path;
    no_rows = ground (arith, e, h.same_directory, h.database_kept);
  }

  reset-IsChecked :
      (t : Transfer) (s : FileReceiver)
      → IsChecked t s
      → IsChecked (record t { reset_partial_transfer = true }) s
  reset-IsChecked t s h = record {
    database_kept = h.database_kept;
    disk_kept = h.disk_kept;
    same_chunk = h.same_chunk;
    same_directory = h.same_directory;
    same_original = h.same_original;
    named = h.named;
    same_path = h.same_path;
    no_rows = h.no_rows;
  }

  pub IsNamed : Transfer → FileReceiver → Type 0
  IsNamed t s = (t.replace_reconstructed_file ≡ false) × IsChecked t s

  pub resume-IsNamed :
      (name : Option Bytes)
      → before.versioned_transfer_filenames
          (build_reconstruction_key (directory_of chunk) chunk.filename)
        ≡ name
      → is_versioned config.changed_files_server_policy ≡ true
      → IsNamed (resume_version host config name (start host config chunk)) before
  unfolding IsNamed
  resume-IsNamed none e v = (refl, start-IsChecked)
  resume-IsNamed (some name) e v = (
    refl,
    use_filename-IsChecked name (start host config chunk) before refl (inr (v, inl e))
        start-IsChecked,
  )

  start-IsNamed : IsNamed (start host config chunk) before
  unfolding IsNamed
  start-IsNamed = (refl, start-IsChecked)

  pub select-IsNamed :
      Ends IsKept IsNamed (select_filename host config (start host config chunk) before)
  unfolding select_filename
  select-IsNamed = ground (
    arith,
    start-IsNamed,
    resume-IsNamed
        (before.versioned_transfer_filenames (start host config chunk).original_recon_key) refl,
  )

  pub reconstructed-IsChecked :
      IsSettled before.database.tables
      → (t : Transfer) (s : FileReceiver) → IsNamed t s
      → Ends IsKept IsChecked (check_reconstructed host config t s)
  unfolding check_reconstructed IsNamed
  reconstructed-IsChecked settled t s (e, h) = ground (
    arith,
    refuse t s ReceiveResult.failed refl h,
    refuse t s ReceiveResult.already_completed refl h,
    switch-IsChecked t s e,
    settled t.cl_dir_key t.filename,
    h.database_kept,
    replace-IsChecked t s,
    h,
  )

  pub partial-IsChecked :
      (t : Transfer) (s : FileReceiver)
      → IsChecked t s
      → Ends IsKept IsChecked (check_partial host config t s)
  unfolding check_partial
  partial-IsChecked t s h =
      ground (arith, refuse t s ReceiveResult.failed refl h, reset-IsChecked t s h, h)

  pub on_disk-IsChecked :
      (t : Transfer) (s : FileReceiver)
      → IsChecked t s
      → Ends IsKept IsChecked (check_on_disk host config t s)
  unfolding check_on_disk
  on_disk-IsChecked t s h = ground (
    arith,
    refuse t s ReceiveResult.failed refl h,
    refuse t s ReceiveResult.already_completed refl h,
    switch-IsChecked t s,
    h,
  )

  pub status-IsChecked :
      (t : Transfer) (s : FileReceiver) → IsChecked t s → Ends IsKept IsChecked (check_status t s)
  unfolding check_status
  status-IsChecked t s h = ground (arith, refuse t s ReceiveResult.already_completed refl h, h)

  -- The hash matches, and a row that was found is still there.
  pub record IsVerified (t : Transfer) (s : FileReceiver) : Type 0 where
    pub checked : IsChecked t s
    pub hash_matches : host.calculate_chunk_hash bytes ≡ chunk.hash

  pub hash-IsVerified :
      (t : Transfer) (s : FileReceiver)
      → IsChecked t s
      → Ends IsKept IsVerified (verify_hash host config bytes t s)
  unfolding verify_hash
  hash-IsVerified t s h = ground (arith, refuse t s ReceiveResult.failed refl h, verified t s h)
    where
      verified :
          (t : Transfer) (s : FileReceiver)
          → IsChecked t s
          → bytes_eq (host.calculate_chunk_hash bytes) t.chunk.hash ≡ true
          → IsVerified t s
      verified t s h e = record {
        checked = h;
        hash_matches =
            (bytes_eq_iff (host.calculate_chunk_hash bytes) t.chunk.hash).0 e
            ∙ ap (λ c. c.hash) h.same_chunk;
      }

  pub completion-IsChecked :
      IsSettled before.database.tables
      → (t : Transfer) (s : FileReceiver) → IsNamed t s
      → Ends IsKept IsChecked (check_completion host config t s)
  unfolding check_completion
  completion-IsChecked settled t s h =
      and_then-Ends IsKept IsChecked IsChecked check_status
        (and_then (and_then (check_reconstructed host config t s) (check_partial host config))
          (check_on_disk host config))
        (and_then-Ends IsKept IsChecked IsChecked (check_on_disk host config)
          (and_then (check_reconstructed host config t s) (check_partial host config))
          (and_then-Ends IsKept IsChecked IsChecked (check_partial host config)
            (check_reconstructed host config t s) (reconstructed-IsChecked settled t s h)
            partial-IsChecked)
          on_disk-IsChecked)
        status-IsChecked

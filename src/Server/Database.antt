-- ===== src/Server/Database.antt =====
-- The tables of ServerUDTC++_v3/Database.cpp and what each statement does to them. A list of rows is
-- in the order of their ids. Every method can throw, and then leaves the tables as they were, since
-- its own transaction is rolled back: the callers model that by a fault at the call. A connection
-- and its transaction belong to one thread; the columns that no statement reads back are left out.
use transfer_udt.Common.{
  ℕ, suc, Bool, true, false, not, ◌&&◌, List, [], ◌∷◌, ◌++◌, map, length, ◌==◌, ◌||◌, if◌then◌else◌,
  Option, none, some,
}
use transfer_udt.Common.Int.{ℤ, pos, int_eq, int_le, int_max}
use transfer_udt.Common.Bytes.{Bytes, bytes_eq}
pub mod Rows
pub mod Settled
pub mod Busy

pub data Status : Type 0 where
  pending success failed : Status

pub record ChunkRow : Type 0 where
  pub client_address : Bytes
  pub filename : Bytes
  pub chunk_number : ℤ
  pub total_chunk : ℤ
  pub hash : Bytes
  pub file_path : Bytes
  pub status : Status
  pub transfer_id : Bytes

pub record ReconstructedRow : Type 0 where
  pub client_address : Bytes
  pub filename : Bytes
  pub reconstructed_path : Bytes
  pub transfer_id : Bytes

pub record Tables : Type 0 where
  pub chunks : List ChunkRow
  pub reconstructed_files : List ReconstructedRow

-- The tables as the connection sees them, those at its BEGIN while a transaction is open, and the
-- flag m_isTransactionActive.
pub record Database : Type 0 where
  pub tables : Tables
  pub saved : Option Tables
  pub active : Bool

abbrev pub is_success : Status → Bool
is_success Status.success = true
is_success Status.pending = false
is_success Status.failed = false

-- WHERE client_address = ? AND filename = ?
abbrev pub of_file : Bytes → Bytes → ChunkRow → Bool
of_file client filename r = bytes_eq r.client_address client && bytes_eq r.filename filename

abbrev pub of_chunk : Bytes → Bytes → ℤ → ChunkRow → Bool
of_chunk client filename number r = of_file client filename r && int_eq r.chunk_number number

abbrev pub of_output : Bytes → Bytes → ReconstructedRow → Bool
of_output client filename r = bytes_eq r.client_address client && bytes_eq r.filename filename

module _ {A : Type 0} where
  abbrev pub select : (A → Bool) → List A → List A
  select p [] = []
  select p (x ∷ xs) = let rest = select p xs in if p x then x ∷ rest else rest

  abbrev pub first : List A → Option A
  first [] = none
  first (x ∷ xs) = some x

  abbrev pub is_some : Option A → Bool
  is_some none = false
  is_some (some a) = true

-- `none` where the UNIQUE constraint is violated.
unfoldable pub insert_row : ChunkRow → Tables → Option Tables
insert_row r t =
    if length (select (of_chunk r.client_address r.filename r.chunk_number) t.chunks) == 0
    then some (record t { chunks = t.chunks ++ (r ∷ []) })
    else none

abbrev pub set_status : Bytes → Bytes → ℤ → Status → ChunkRow → ChunkRow
set_status client filename number status r =
    if of_chunk client filename number r then record r { status = status } else r

unfoldable pub update_rows : Bytes → Bytes → ℤ → Status → Tables → Tables
update_rows client filename number status t = record t {
  chunks = map (set_status client filename number status) t.chunks;
}

-- COALESCE(MAX(total_chunk), 0)
abbrev pub max_total : List ChunkRow → Option ℤ
max_total [] = none
max_total (r ∷ rest) = elim (max_total rest) [
  | none ↦ some r.total_chunk
  | some m ↦ some (int_max r.total_chunk m)
]

abbrev pub coalesce : Option ℤ → ℤ
coalesce none = pos 0
coalesce (some n) = n

unfoldable pub get_total_chunk_count : Bytes → Bytes → Tables → ℤ
get_total_chunk_count client filename t =
    coalesce (max_total (select (of_file client filename) t.chunks))

-- How many rows the chunk has.
unfoldable pub get_chunk_status : Bytes → Bytes → ℤ → Tables → ℕ
get_chunk_status client filename number t =
    length (select (of_chunk client filename number) t.chunks)

unfoldable pub get_chunk_row_count : Bytes → Bytes → Tables → ℕ
get_chunk_row_count client filename t = length (select (of_file client filename) t.chunks)

unfoldable pub is_chunk_successful : Bytes → Bytes → ℤ → Tables → Bool
is_chunk_successful client filename number t =
    not (
      length (select (λ r. of_chunk client filename number r && is_success r.status) t.chunks) == 0)

unfoldable pub is_file_reconstructed : Bytes → Bytes → Tables → Bool
is_file_reconstructed client filename t =
    not (length (select (of_output client filename) t.reconstructed_files) == 0)

abbrev id_of_row : Option ChunkRow → Bytes
id_of_row none = []
id_of_row (some r) = r.transfer_id

abbrev id_of_output : Option ReconstructedRow → Bytes
id_of_output none = []
id_of_output (some r) = r.transfer_id

-- ORDER BY id LIMIT 1; the empty string when there is no row.
unfoldable pub get_active_transfer_id : Bytes → Bytes → Tables → Bytes
get_active_transfer_id client filename t =
    id_of_row (first (select (of_file client filename) t.chunks))

unfoldable pub get_reconstructed_transfer_id : Bytes → Bytes → Tables → Bytes
get_reconstructed_transfer_id client filename t =
    id_of_output (first (select (of_output client filename) t.reconstructed_files))

-- ORDER BY chunk_number ASC
abbrev pub insert_sorted : ChunkRow → List ChunkRow → List ChunkRow
insert_sorted r [] = r ∷ []
insert_sorted r (x ∷ rest) =
    let later = insert_sorted r rest in
    if int_le r.chunk_number x.chunk_number then r ∷ x ∷ rest else x ∷ later

abbrev pub sort_rows : List ChunkRow → List ChunkRow
sort_rows [] = []
sort_rows (r ∷ rest) = insert_sorted r (sort_rows rest)

abbrev pub of_stored : Bytes → Bytes → ChunkRow → Bool
of_stored client filename r = of_file client filename r && is_success r.status

unfoldable pub get_chunks_for_file : Bytes → Bytes → Tables → List ChunkRow
get_chunks_for_file client filename t = sort_rows (select (of_stored client filename) t.chunks)

-- INSERT OR IGNORE
unfoldable pub add_reconstructed_file : ReconstructedRow → Tables → Tables
add_reconstructed_file r t =
    if length (select (of_output r.client_address r.filename) t.reconstructed_files) == 0
    then record t { reconstructed_files = t.reconstructed_files ++ (r ∷ []) }
    else t

unfoldable pub delete_reconstructed_file : Bytes → Bytes → Tables → Tables
delete_reconstructed_file client filename t = record t {
  reconstructed_files = select (λ r. not (of_output client filename r)) t.reconstructed_files;
}

unfoldable pub delete_chunks_by_file : Bytes → Bytes → Tables → Tables
delete_chunks_by_file client filename t = record t {
  chunks = select (λ r. not (of_file client filename r)) t.chunks;
}

-- `none` where a transaction is open: the class throws on its flag, SQLite on a second BEGIN.
unfoldable pub begin_transaction : Database → Option Database
begin_transaction d =
    if d.active || is_some d.saved
    then none
    else some (record d { saved = some d.tables; active = true })

-- What COMMIT does: it succeeds, it fails and SQLite keeps its transaction open, as where the database
-- is busy, or it fails and SQLite rolls back by itself.
pub data Commit : Type 0 where
  commits busy undone : Commit

abbrev pub restored : Option Tables → Tables → Tables
restored none t = t
restored (some before) t = before

-- A COMMIT that fails throws, and the class forgets the transaction.
abbrev after_commit : Commit → Database → Bool × Database
after_commit Commit.commits d = (true, record d { saved = none; active = false })
after_commit Commit.busy d = (false, record d { active = false })
after_commit Commit.undone d =
    (false, record { tables = restored d.saved d.tables; saved = none; active = false })

unfoldable pub commit_transaction : Commit → Database → Bool × Database
commit_transaction outcome d = if not d.active then (true, d) else after_commit outcome d

-- A ROLLBACK that fails throws; the transaction of SQLite stays, the class forgets it.
unfoldable pub rollback_transaction : Bool → Database → Bool × Database
rollback_transaction fails d =
    if not d.active
    then (true, d)
    else if fails
    then (false, record d { active = false })
    else (true, record { tables = restored d.saved d.tables; saved = none; active = false })

-- A statement that writes outside of a transaction has a TransactionGuard, whose BEGIN fails where
-- SQLite has a transaction open.
abbrev pub is_writable : Database → Bool
is_writable d = d.active || not (is_some d.saved)

abbrev with_tables : Database → Option Tables → Option Database
with_tables d none = none
with_tables d (some t) = some (record d { tables = t })

unfoldable pub insert_chunk : ChunkRow → Database → Option Database
insert_chunk r d = if is_writable d then with_tables d (insert_row r d.tables) else none

unfoldable pub update_chunk_status : Bytes → Bytes → ℤ → Status → Database → Option Database
update_chunk_status client filename number status d =
    if is_writable d
    then some (record d { tables = update_rows client filename number status d.tables })
    else none

pub record InProgressFileInfo : Type 0 where
  pub client_address : Bytes
  pub filename : Bytes
  pub total_chunks : ℤ
  pub successful_count : ℕ

-- The group of the first row, and so on; the rows of a reconstructed file are left out. SQL does not
-- say in which order the groups come. The fuel is the number of rows.
unfoldable pub groups : ℕ → Tables → List ChunkRow → List InProgressFileInfo
groups fuel t [] = []
groups ℕ.zero t (r ∷ rest) = []
groups (suc fuel) t (r ∷ rest) =
    let others = groups fuel t (select (λ x. not (of_file r.client_address r.filename x)) rest) in
    let rows = r ∷ select (of_file r.client_address r.filename) rest in
    if is_file_reconstructed r.client_address r.filename t
    then others
    else record {
      client_address = r.client_address;
      filename = r.filename;
      total_chunks = coalesce (max_total rows);
      successful_count = length (select (λ x. is_success x.status) rows);
    }
      ∷ others

unfoldable pub get_in_progress_file_counters : Tables → List InProgressFileInfo
get_in_progress_file_counters t = groups (length t.chunks) t t.chunks

-- ===== src/Server/Database/Rows.antt =====
-- What the statements select and change (ServerUDTC++_v3/Database.cpp).
use transfer_udt.Common.{
  suc, ◌≤◌, ◌≡◌, ◌≢◌, refl, ap, ◌∙◌, All, Bool, true, false, ◌&&◌, List, [], ◌∷◌, ◌++◌, map, length,
  length-append, some, arith,
}
use transfer_udt.Common.Int.{ℤ, int_eq, int_eq_iff, int_le, int_le_total}
use transfer_udt.Common.Bytes.{Bytes, bytes_eq, bytes_eq_iff}
use transfer_udt.Server.Database.{
  Status, ChunkRow, Tables, is_success, of_file, of_chunk, of_stored, set_status, select,
  insert_row, update_rows, get_chunk_status, get_chunk_row_count, is_chunk_successful,
  get_chunks_for_file, insert_sorted, sort_rows,
}

module _ {A : Type 0} where
  pub select-append :
      (p : A → Bool) (xs ys : List A) → select p (xs ++ ys) ≡ select p xs ++ select p ys
  select-append p [] ys = refl
  select-append p (x ∷ xs) ys = ground (arith, select-append p xs ys)

  pub select-select :
      (p q : A → Bool) (xs : List A)
      → length (select q (select p xs)) ≡ length (select (λ x. p x && q x) xs)
  select-select p q [] = refl
  select-select p q (x ∷ xs) = ground (arith, select-select p q xs)

  -- A narrower condition selects no more.
  pub length-select :
      (p q : A → Bool) (xs : List A)
      → ((x : A) → q x ≡ true → p x ≡ true)
      → length (select q xs) ≤ length (select p xs)
  length-select p q [] h = omega arith
  length-select p q (x ∷ xs) h = ground (arith, length-select p q xs h, h x)

pub status-le-count :
    (client filename : Bytes) (number : ℤ) (t : Tables)
    → get_chunk_status client filename number t ≤ get_chunk_row_count client filename t
unfolding get_chunk_status get_chunk_row_count
status-le-count client filename number t =
    length-select (of_file client filename) (of_chunk client filename number) t.chunks
      (λ r h. ground arith)

pub all_updated :
    (client filename : Bytes) (number : ℤ) (rows : List ChunkRow)
    → length (
        select
          (λ r. of_chunk client filename number r && is_success r.status)
          (map (set_status client filename number Status.success) rows))
      ≡ length (select (of_chunk client filename number) rows)
all_updated client filename number [] = refl
all_updated client filename number (r ∷ rest) =
    ground (arith, all_updated client filename number rest)

-- Once updated, a chunk that has a row is successful.
pub update_rows_lem :
    (client filename : Bytes) (number : ℤ) (t : Tables)
    → get_chunk_status client filename number t ≢ 0
    → is_chunk_successful client filename number
        (update_rows client filename number Status.success t)
      ≡ true
unfolding get_chunk_status update_rows is_chunk_successful
update_rows_lem client filename number t h =
    ground (arith, all_updated client filename number t.chunks)

bytes_eq_refl : (a : Bytes) → bytes_eq a a ≡ true
bytes_eq_refl a = (bytes_eq_iff a a).1 refl

int_eq_refl : (a : ℤ) → int_eq a a ≡ true
int_eq_refl a = (int_eq_iff a a).1 refl

-- A chunk that has no row can be inserted, and then has one.
pub insert_row_lem :
    (r : ChunkRow) (t u : Tables)
    → insert_row r t ≡ some u
    → get_chunk_status r.client_address r.filename r.chunk_number u ≢ 0
unfolding insert_row get_chunk_status
insert_row_lem r t u e = ground (
  arith,
  bytes_eq_refl r.client_address,
  bytes_eq_refl r.filename,
  int_eq_refl r.chunk_number,
  select-append (of_chunk r.client_address r.filename r.chunk_number) t.chunks (r ∷ []),
  length-append (select (of_chunk r.client_address r.filename r.chunk_number) t.chunks)
      (select (of_chunk r.client_address r.filename r.chunk_number) (r ∷ [])),
)

-- ORDER BY chunk_number ASC: each row is at most the next one.
abbrev pub IsSorted : List ChunkRow → Type 0
IsSorted [] = Unit
IsSorted (r ∷ []) = Unit
IsSorted (r ∷ x ∷ rest) = (int_le r.chunk_number x.chunk_number ≡ true) × IsSorted (x ∷ rest)

length-insert_sorted :
    (r : ChunkRow) (rows : List ChunkRow) → length (insert_sorted r rows) ≡ suc (length rows)
length-insert_sorted r [] = refl
length-insert_sorted r (x ∷ rest) = ground (arith, length-insert_sorted r rest)

pub length-sort_rows : (rows : List ChunkRow) → length (sort_rows rows) ≡ length rows
length-sort_rows [] = refl
length-sort_rows (r ∷ rest) =
    ground (arith, length-insert_sorted r (sort_rows rest), length-sort_rows rest)

select-insert_sorted :
    (p : ChunkRow → Bool) (r : ChunkRow) (rows : List ChunkRow)
    → length (select p (insert_sorted r rows)) ≡ length (select p (r ∷ rows))
select-insert_sorted p r [] = refl
select-insert_sorted p r (x ∷ rest) = ground (arith, select-insert_sorted p r rest)

-- Sorting keeps how many rows meet a condition.
pub select-sort_rows :
    (p : ChunkRow → Bool) (rows : List ChunkRow)
    → length (select p (sort_rows rows)) ≡ length (select p rows)
select-sort_rows p [] = refl
select-sort_rows p (r ∷ rest) =
    ground (arith, select-insert_sorted p r (sort_rows rest), select-sort_rows p rest)

IsSorted-after :
    (r x : ChunkRow) (rest : List ChunkRow)
    → int_le r.chunk_number x.chunk_number ≡ false
    → IsSorted (x ∷ rest)
    → IsSorted (insert_sorted r rest)
    → IsSorted (x ∷ insert_sorted r rest)
IsSorted-after r x [] h s t = (int_le_total r.chunk_number x.chunk_number h, tt)
IsSorted-after r x (y ∷ rest) h s t =
    ground (arith, int_le_total r.chunk_number x.chunk_number h, s, t)

insert_sorted-IsSorted :
    (r : ChunkRow) (rows : List ChunkRow) → IsSorted rows → IsSorted (insert_sorted r rows)
insert_sorted-IsSorted r [] h = tt
insert_sorted-IsSorted r (x ∷ []) h = ground (arith, int_le_total r.chunk_number x.chunk_number)
insert_sorted-IsSorted r (x ∷ y ∷ rest) h =
    ground (arith, IsSorted-after r x (y ∷ rest), insert_sorted-IsSorted r (y ∷ rest) h.1)

sort_rows-IsSorted : (rows : List ChunkRow) → IsSorted (sort_rows rows)
sort_rows-IsSorted [] = tt
sort_rows-IsSorted (r ∷ rest) = insert_sorted-IsSorted r (sort_rows rest) (sort_rows-IsSorted rest)

-- The rows that it returns, counted by the statement's own condition.
pub length-select_chunks :
    (client filename : Bytes) (t : Tables) (p : ChunkRow → Bool)
    → length (select p (get_chunks_for_file client filename t))
      ≡ length (select (λ r. of_stored client filename r && p r) t.chunks)
unfolding get_chunks_for_file
length-select_chunks client filename t p =
    select-sort_rows p (select (of_stored client filename) t.chunks)
    ∙ select-select (of_stored client filename) p t.chunks

-- A successful row of the file.
pub record IsChunkOf (client filename : Bytes) (r : ChunkRow) : Type 0 where
  pub same_client : r.client_address ≡ client
  pub same_filename : r.filename ≡ filename
  pub successful : r.status ≡ Status.success

is_success_inv : (s : Status) → is_success s ≡ true → s ≡ Status.success
is_success_inv Status.success h = refl
is_success_inv Status.pending h = ground (arith, h)
is_success_inv Status.failed h = ground (arith, h)

pub stored-IsChunkOf :
    (client filename : Bytes) (r : ChunkRow)
    → of_stored client filename r ≡ true
    → IsChunkOf client filename r
stored-IsChunkOf client filename r h = record {
  same_client = ground (arith, h, bytes_eq_iff r.client_address client);
  same_filename = ground (arith, h, bytes_eq_iff r.filename filename);
  successful = is_success_inv r.status (ground (arith, h));
}

of_stored_complete :
    (client filename : Bytes) (r : ChunkRow)
    → IsChunkOf client filename r
    → of_stored client filename r ≡ true
of_stored_complete client filename r h = ground (
  arith,
  (bytes_eq_iff r.client_address client).1 h.same_client,
  (bytes_eq_iff r.filename filename).1 h.same_filename,
  ap is_success h.successful,
)

module _ (P : ChunkRow → Type 0) where
  insert_sorted-All :
      (r : ChunkRow) (rows : List ChunkRow) → P r → All P rows → All P (insert_sorted r rows)
  insert_sorted-All r [] p h = (p, tt)
  insert_sorted-All r (x ∷ rest) p h = ground (arith, p, h, insert_sorted-All r rest p h.1)

  sort_rows-All : (rows : List ChunkRow) → All P rows → All P (sort_rows rows)
  sort_rows-All [] h = tt
  sort_rows-All (r ∷ rest) h = insert_sorted-All r (sort_rows rest) h.0 (sort_rows-All rest h.1)

  select-All :
      (q : ChunkRow → Bool) (rows : List ChunkRow)
      → ((r : ChunkRow) → q r ≡ true → P r)
      → All P (select q rows)
  select-All q [] h = tt
  select-All q (r ∷ rest) h = ground (arith, h r, select-All q rest h)

narrow_select :
    (q p : ChunkRow → Bool) (rows : List ChunkRow)
    → ((r : ChunkRow) → p r ≡ true → q r ≡ true)
    → length (select (λ r. q r && p r) rows) ≡ length (select p rows)
narrow_select q p [] h = refl
narrow_select q p (r ∷ rest) h = ground (arith, h r, narrow_select q p rest h)

-- getChunksForFile returns rows of the table that have the client, the file and the status SUCCESS,
-- in the order of their numbers; and whatever kind of such rows one counts, as many of them are
-- returned as the table has.
pub chunks_for_file_lem :
    (client filename : Bytes) (t : Tables) (p : ChunkRow → Bool)
    → ((r : ChunkRow) → p r ≡ true → IsChunkOf client filename r)
    → IsSorted (get_chunks_for_file client filename t)
      × All (IsChunkOf client filename) (get_chunks_for_file client filename t)
      × (length (select p (get_chunks_for_file client filename t)) ≡ length (select p t.chunks))
unfolding get_chunks_for_file
chunks_for_file_lem client filename t p h = (
  sort_rows-IsSorted (select (of_stored client filename) t.chunks),
  sort_rows-All (IsChunkOf client filename) (select (of_stored client filename) t.chunks) (
      select-All (IsChunkOf client filename) (of_stored client filename) t.chunks
        (stored-IsChunkOf client filename)),
  length-select_chunks client filename t p
      ∙ narrow_select (of_stored client filename) p t.chunks
          (λ r k. of_stored_complete client filename r (h r k)),
)

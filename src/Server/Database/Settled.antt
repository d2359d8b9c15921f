-- ===== src/Server/Database/Settled.antt =====
-- The relation between the two tables, statement by statement (ServerUDTC++_v3/Database.cpp).
use transfer_udt.Common.{
  ◌≤◌, ◌≡◌, refl, ap, ◌∙◌, Bool, true, false, not, ◌&&◌, List, [], ◌∷◌, ◌++◌, map, length,
  length-append, some, arith,
}
use transfer_udt.Common.Int.{ℤ}
use transfer_udt.Common.Bytes.{Bytes, bytes_eq, bytes_eq_iff}
use transfer_udt.Server.Database.{
  Status, ChunkRow, ReconstructedRow, Tables, of_file, of_output, set_status, select, insert_row,
  update_rows, get_chunk_row_count, is_file_reconstructed, add_reconstructed_file,
  delete_reconstructed_file, delete_chunks_by_file,
}
use transfer_udt.Server.Database.Rows.{select-append}

abbrev pub IsSettled : Tables → Type 0
IsSettled tables =
    (client filename : Bytes)
    → is_file_reconstructed client filename tables ≡ true
    → get_chunk_row_count client filename tables ≡ 0

-- No more rows, and no more completed files.
pub fewer-IsSettled :
    (t u : Tables)
    → ((c f : Bytes) → get_chunk_row_count c f u ≤ get_chunk_row_count c f t)
    → ((c f : Bytes) → is_file_reconstructed c f u ≡ true → is_file_reconstructed c f t ≡ true)
    → IsSettled t
    → IsSettled u
fewer-IsSettled t u rows done h c f e = omega (arith, rows c f, h c f (done c f e))

select_less :
    {A : Type 0} (p q : A → Bool) (xs : List A)
    → length (select p (select q xs)) ≤ length (select p xs)
select_less p q [] = omega arith
select_less p q (x ∷ xs) = ground (arith, select_less p q xs)

pub delete_chunks-IsSettled :
    (client filename : Bytes) (t : Tables)
    → IsSettled t
    → IsSettled (delete_chunks_by_file client filename t)
unfolding delete_chunks_by_file get_chunk_row_count is_file_reconstructed
delete_chunks-IsSettled client filename t h c f e =
    omega
      (arith, h c f e, select_less (of_file c f) (λ r. not (of_file client filename r)) t.chunks)

pub delete_reconstructed-IsSettled :
    (client filename : Bytes) (t : Tables)
    → IsSettled t
    → IsSettled (delete_reconstructed_file client filename t)
unfolding delete_reconstructed_file get_chunk_row_count is_file_reconstructed
delete_reconstructed-IsSettled client filename t h c f e = ground (
  arith,
  e,
  h c f,
  select_less (of_output c f) (λ r. not (of_output client filename r)) t.reconstructed_files,
)

none_left :
    (client filename : Bytes) (rows : List ChunkRow)
    → length (select (of_file client filename) (select (λ r. not (of_file client filename r)) rows))
      ≡ 0
none_left client filename [] = refl
none_left client filename (r ∷ rest) = ground (arith, none_left client filename rest)

same_files :
    (client filename : Bytes) (number : ℤ) (status : Status) (c f : Bytes) (rows : List ChunkRow)
    → length (select (of_file c f) (map (set_status client filename number status) rows))
      ≡ length (select (of_file c f) rows)
same_files client filename number status c f [] = refl
same_files client filename number status c f (r ∷ rest) =
    ground (arith, same_files client filename number status c f rest)

pub update_rows-IsSettled :
    (client filename : Bytes) (number : ℤ) (status : Status) (t : Tables)
    → IsSettled t
    → IsSettled (update_rows client filename number status t)
unfolding update_rows get_chunk_row_count is_file_reconstructed
update_rows-IsSettled client filename number status t h c f e =
    same_files client filename number status c f t.chunks ∙ h c f e

-- A row of a file that is not completed.
pub insert_row-IsSettled :
    (r : ChunkRow) (t u : Tables)
    → is_file_reconstructed r.client_address r.filename t ≡ false
    → insert_row r t ≡ some u
    → IsSettled t
    → IsSettled u
unfolding insert_row get_chunk_row_count is_file_reconstructed
insert_row-IsSettled r t u n i h c f e = ground (
  arith,
  n,
  i,
  e,
  h c f,
  bytes_eq_iff r.client_address c,
  bytes_eq_iff r.filename f,
  select-append (of_file c f) t.chunks (r ∷ []),
  length-append (select (of_file c f) t.chunks) (select (of_file c f) (r ∷ [])),
)

gone :
    (client filename c f : Bytes) (rows : List ChunkRow)
    → (bytes_eq client c && bytes_eq filename f) ≡ true
    → length (select (of_file c f) (select (λ r. not (of_file client filename r)) rows)) ≡ 0
gone client filename c f rows e = rw (← same.0, ← same.1) (none_left client filename rows)
  where
    same : (client ≡ c) × (filename ≡ f)
    same = ground (arith, e, bytes_eq_iff client c, bytes_eq_iff filename f)

only_added :
    (r : ReconstructedRow) (c f : Bytes) (outputs : List ReconstructedRow)
    → (bytes_eq r.client_address c && bytes_eq r.filename f) ≡ false
    → length (select (of_output c f) (outputs ++ (r ∷ [])))
      ≡ length (select (of_output c f) outputs)
only_added r c f outputs e = ground (
  arith,
  e,
  select-append (of_output c f) outputs (r ∷ []),
  length-append (select (of_output c f) outputs) (select (of_output c f) (r ∷ [])),
)

added_keeps : (r : ReconstructedRow) (t : Tables) → (add_reconstructed_file r t).chunks ≡ t.chunks
unfolding add_reconstructed_file
added_keeps r t = ground arith

added_other :
    (r : ReconstructedRow) (t : Tables) (c f : Bytes)
    → (bytes_eq r.client_address c && bytes_eq r.filename f) ≡ false
    → is_file_reconstructed c f (add_reconstructed_file r t) ≡ true
    → is_file_reconstructed c f t ≡ true
unfolding add_reconstructed_file is_file_reconstructed
added_other r t c f n e = ground (arith, n, e, only_added r c f t.reconstructed_files)

completed_rows :
    (r : ReconstructedRow) (t : Tables) (c f : Bytes) (b : Bool)
    → (bytes_eq r.client_address c && bytes_eq r.filename f) ≡ b
    → IsSettled t
    → is_file_reconstructed c f (add_reconstructed_file r t) ≡ true
    → length
        (select (of_file c f) (select (λ x. not (of_file r.client_address r.filename x)) t.chunks))
      ≡ 0
unfolding get_chunk_row_count
completed_rows r t c f true n h e = gone r.client_address r.filename c f t.chunks n
completed_rows r t c f false n h e = omega (
  arith,
  h c f (added_other r t c f n e),
  select_less (of_file c f) (λ x. not (of_file r.client_address r.filename x)) t.chunks,
)

-- The completion of a file, together with the removal of its rows.
pub completed-IsSettled :
    (r : ReconstructedRow) (t : Tables)
    → IsSettled t
    → IsSettled (delete_chunks_by_file r.client_address r.filename (add_reconstructed_file r t))
unfolding delete_chunks_by_file get_chunk_row_count is_file_reconstructed
completed-IsSettled r t h c f e =
    ap
      (λ rows.
        length
          (select (of_file c f) (select (λ x. not (of_file r.client_address r.filename x)) rows)))
      (added_keeps r t)
    ∙ completed_rows r t c f (bytes_eq r.client_address c && bytes_eq r.filename f) refl h e

none_selected :
    {A : Type 0} (p : A → Bool) (xs : List A) → length (select p (select (λ x. not (p x)) xs)) ≡ 0
none_selected p [] = refl
none_selected p (x ∷ xs) = ground (arith, none_selected p xs)

pub not_reconstructed :
    (client filename : Bytes) (t : Tables)
    → is_file_reconstructed client filename (delete_reconstructed_file client filename t) ≡ false
unfolding is_file_reconstructed delete_reconstructed_file
not_reconstructed client filename t =
    ground (arith, none_selected (of_output client filename) t.reconstructed_files)

-- ===== src/Tests/Documents.antt =====
-- The document operations run on a small database: two organizations, and the document 5 of the first.
use md_manager.Base.{
  none, ◌+◌, ◌<◌, false, some, List, [], ◌∷◌, ◌++◌, ◌≡◌, refl, any, find, nat_eq, bytes_eq,
  string_eq, ℕ_discrete, arith,
}
use md_manager.Fault.{Result, ok, err}
use md_manager.Model.{
  VersionKind, AuthContext, capability, role_from_db, actor_type_as_str, version_kind_as_str,
}
use md_manager.Rbac.{fold_max, resolve_doc_role}
use md_manager.Text.{
  Text, lit, len_utf8, len, is_whitespace, trim_start, trim_end, trim, starts_with, ends_with_char,
  contains, split, split_inclusive, strip_suffix, chomp, lines, join,
}
use md_manager.Crypto.{content_hash}
use md_manager.Validate.{
  is_ascii_lowercase, is_ascii_digit, is_path_char, check_segment, check_segments, validate_path,
  validate_title, validate_content_size,
}
use md_manager.Chunk.{
  breadcrumb, count_hashes, parse_heading, flush, pop_deeper, push_line, is_fence, open_section,
  plain_line, step_line, run_lines, chunk_markdown_with, chunk_markdown,
}
use md_manager.Db.{Inputs}
use md_manager.Db.Tables.{Store, DocumentRow}
use md_manager.Db.Rows.{update_rows, insert_row}
use md_manager.Db.Tx.{Tx, ◌>>=◌}
use md_manager.Db.Access.{
  team_ids, grant_applies, granted_roles, has_deny, parse_roles, effective_doc_role,
  effective_project_role, may_doc, authorize_doc, authorize_project,
}
use md_manager.Db.Statements.{
  live_at_id, set_content, returning, version_row, insert_version, audit,
}
use md_manager.Db.Reindex.{
  of_document, existing_hash, unchanged, kept_indices, to_insert, chunk_row, delete_changed,
  insert_chunk, insert_chunks, reindexed, reindex_chunks,
}
use md_manager.Db.Versions.{
  snapshot, latest_version, appended, project_exists, count_live, insert_document, find_live,
  lock_document, coalesces, overwrite_version, rewritten, bumped, save_version, overwrite_latest,
  coalesce_or_save, finish, set_path, drop_document, revive,
}
use md_manager.Db.Document.{
  UpdateOutcome, updated, stale, create_document, get_document, update_document, append_to_document,
  restore_version, move_document, delete_document,
}
use md_manager.Db.Requests.{Request, serve_all, perform, append, delete}
use md_manager.Db.Document.Updates.{get-update, IsSaved, IsMerged, Advances}
use md_manager.Db.Document.Conflicts.{update-update_document_stale}
use md_manager.Db.Document.Saves.{
  append_to_document-NewVersion, restore_version-NewVersion, NewVersion, Separates,
}
use md_manager.Db.Document.Refusals.{delete_document-not_found, Absent}
use md_manager.Db.Document.Creation.{create_document-quota}
use md_manager.Db.Isolation.{SameForeign}
use md_manager.Db.Isolation.Documents.{serve_all-SameForeign}
use md_manager.Base.{All, ℕ}
use md_manager.Chunk.{Chunk}
use md_manager.Db.Tables.{ChunkRow}
use md_manager.Db.Reindex.Correct.{Indexed, reindexed-Indexed}
use md_manager.Db.Reindex.Leftovers.{leftover, others}
use md_manager.Tests.Data.{db, io, io_later, alice, bob, carol, plan, store}

-- The operations: a proof that opens this one opens them all.
unfoldable run : Request → Tx (Unit {0})
unfolding create_document get_document update_document append_to_document restore_version
    move_document delete_document perform snapshot latest_version appended project_exists count_live
    insert_document find_live lock_document coalesces overwrite_version rewritten bumped
    save_version overwrite_latest coalesce_or_save finish set_path drop_document revive set_content
    returning version_row insert_version audit existing_hash unchanged kept_indices to_insert
    chunk_row delete_changed insert_chunk insert_chunks reindexed reindex_chunks team_ids
    granted_roles has_deny grant_applies parse_roles effective_doc_role effective_project_role
    may_doc authorize_doc authorize_project update_rows insert_row ◌>>=◌ breadcrumb count_hashes
    parse_heading flush pop_deeper push_line is_fence open_section plain_line step_line run_lines
    chunk_markdown_with chunk_markdown len_utf8 len is_whitespace trim_start trim_end trim
    starts_with ends_with_char contains split split_inclusive strip_suffix chomp lines join
    validate_path validate_title validate_content_size check_segments check_segment is_path_char
    is_ascii_lowercase is_ascii_digit content_hash resolve_doc_role fold_max capability role_from_db
    actor_type_as_str version_kind_as_str ℕ_discrete bytes_eq string_eq
run = perform db io alice

-- What a run leaves: its store, and its value.
abbrev left {ℓ} : {A : Type ℓ} → Result (A × Store) → Store
left (ok (a, t)) = t
left (err e) = store

abbrev doc_of : Result (DocumentRow × Store) → DocumentRow
doc_of (ok (d, t)) = d
doc_of (err e) = plan

abbrev updated_of : Result (UpdateOutcome × Store) → DocumentRow
updated_of (ok (updated d, t)) = d
updated_of (ok (stale n c b, t)) = plan
updated_of (err e) = plan

abbrev new_update : Result (UpdateOutcome × Store)
new_update = update_document db io_later alice 5 (lit "# New") 2 VersionKind.checkpoint store

update_example :
    (plan.current_version ≡ 2)
    × ((row : DocumentRow) × (get_document db io alice 5 (left new_update)
          ≡ ok (row, left new_update))
        × IsSaved db alice (lit "# New") plan row
        × Advances db io_later alice 5 VersionKind.checkpoint store.versions 2 row.current_version)
unfolding run
update_example =
    get-update db io_later alice 5 io (lit "# New") 2 VersionKind.checkpoint store (left new_update)
      plan (updated_of new_update) refl refl

not_merged :
    IsMerged db io_later alice VersionKind.checkpoint (latest_version 1 5 store.versions) → ⊥
not_merged x = let k = x.autosaves.0 in ground arith

conflict_example :
    update_document db io carol 5 (lit "mine") 2 VersionKind.autosave (left new_update)
    ≡ ok (stale 3 (lit "# New") (lit "hi"), left new_update)
unfolding run
conflict_example =
    update-update_document_stale db io_later io alice carol 5 store (left new_update) plan
      (lit "# New") (lit "mine") 2 VersionKind.checkpoint VersionKind.autosave
      (updated_of new_update) refl refl not_merged refl refl refl

abbrev appending : Result (DocumentRow × Store)
appending = append_to_document db io_later alice 5 (lit "more") store

append_example :
    (sep : Text) × Separates plan.content sep
    × NewVersion db io_later alice 5 io
        (plan.content ++ (sep ++ lit "more"))
        store
        plan
        (left appending)
unfolding run
append_example =
    append_to_document-NewVersion db io_later alice 5 io (lit "more") store (left appending) plan
      (doc_of appending) refl refl

abbrev restoring : Result (DocumentRow × Store)
restoring = restore_version db io_later alice 5 1 store

restore_example :
    (content : Text) × (snapshot 1 5 1 store.versions ≡ some content)
    × NewVersion db io_later alice 5 io content store plan (left restoring)
unfolding run
restore_example =
    restore_version-NewVersion db io_later alice 5 io 1 store (left restoring) plan
      (doc_of restoring) refl refl

abbrev deletion : Result (Unit {0} × Store)
deletion = delete_document db io_later alice 5 store

delete_example :
    Absent db io_later alice 5 io bob (left deletion)
    × (any (of_document 1 5) (left deletion).chunks ≡ false)
unfolding run
delete_example =
    delete_document-not_found db io_later alice 5 io bob store (left deletion) refl refl

abbrev creation : Result (DocumentRow × Store)
creation = create_document db io_later alice 3 (lit "b.md") (lit "B") (lit "text") store

create_example :
    (count_live 1 3 store.documents < 2)
    × (count_live 1 3 (left creation).documents ≡ count_live 1 3 store.documents + 1)
    × (find (live_at_id 1 (doc_of creation).id) (left creation).documents ≡ some (doc_of creation))
    × (((doc_of creation).path ≡ lit "b.md")
        × ((doc_of creation).content ≡ lit "text")
        × ((doc_of creation).project_id ≡ 3)
        × ((doc_of creation).current_version ≡ 1))
    × (snapshot 1 (doc_of creation).id 1 (left creation).versions ≡ some (lit "text"))
unfolding run
create_example =
    create_document-quota db io_later alice 3 (lit "b.md") (lit "B") (lit "text") store
      (left creation) (doc_of creation) refl

abbrev history : List (Inputs × AuthContext × Request)
history =
    (io, alice, append 5 (lit "more"))
    ∷ (io_later, bob, delete 5)
    ∷ (io_later, alice, delete 6)
    ∷ []

isolation_example : SameForeign 1 store (serve_all db history store)
isolation_example = serve_all-SameForeign db 1 history store (refl, (refl, (refl, tt)))

abbrev chunk_row_at : ℕ → ℕ → Text → ChunkRow
chunk_row_at id index content = record {
  id = id;
  org_id = 1;
  document_id = 5;
  chunk_index = index;
  heading_path = [];
  content = content;
  content_hash = b'h' ∷ content;
  embedding = none;
}

abbrev old_chunks : List ChunkRow
old_chunks =
    chunk_row_at 80 0 (lit "# A") ∷ chunk_row_at 81 1 (lit "old") ∷ chunk_row_at 82 7 (lit "x") ∷ []

abbrev new_chunks : List Chunk
new_chunks =
    record { index = 0; heading_path = []; content = lit "# A" }
    ∷ record { index = 1; heading_path = lit "A"; content = lit "new" }
    ∷ []

abbrev rows_of : Result (List ChunkRow) → List ChunkRow
rows_of (ok rows) = rows
rows_of (err e) = []

abbrev rediff : Result (List ChunkRow)
rediff = reindexed db.hashes alice 5 (λ k. 200 + k) new_chunks old_chunks

reindex_example :
    All (Indexed db.hashes alice 5 (rows_of rediff)) new_chunks
    × (any (leftover db.hashes alice 5 new_chunks) (rows_of rediff) ≡ false)
    × (others db.hashes alice 5 (rows_of rediff) ≡ others db.hashes alice 5 old_chunks)
unfolding run
reindex_example =
    reindexed-Indexed db.hashes alice 5 (λ k. 200 + k) new_chunks old_chunks (rows_of rediff) refl

-- ===== src/Db/Requests.antt =====
-- The operations on documents as requests, and a history of them: each transaction commits or
-- leaves the store as it was.
use md_manager.Base.{ℕ, List, [], ◌∷◌}
use md_manager.Text.{Text}
use md_manager.Model.{AuthContext, VersionKind}
use md_manager.Db.{Db, Inputs}
use md_manager.Db.Document.{
  create_document, update_document, append_to_document, restore_version, move_document,
  delete_document, undelete_document,
}
use md_manager.Db.Tables.{Store}
use md_manager.Db.Tx.{Tx, pure, commit, ◌>>=◌}

pub data Request : Type 0 where
  create : ℕ → Text → Text → Text → Request
  update : ℕ → Text → ℕ → VersionKind → Request
  append : ℕ → Text → Request
  restore : ℕ → ℕ → Request
  move : ℕ → Text → Request
  delete : ℕ → Request
  undelete : ℕ → Request

unfoldable pub perform : Db → Inputs → AuthContext → Request → Tx (Unit {0})
perform db io ctx (create project_id path title content) = do
  _ ← create_document db io ctx project_id path title content
  pure tt
perform db io ctx (update doc_id content expected_version kind) = do
  _ ← update_document db io ctx doc_id content expected_version kind
  pure tt
perform db io ctx (append doc_id addition) = do
  _ ← append_to_document db io ctx doc_id addition
  pure tt
perform db io ctx (restore doc_id version) = do
  _ ← restore_version db io ctx doc_id version
  pure tt
perform db io ctx (move doc_id new_path) = do _ ← move_document db io ctx doc_id new_path; pure tt
perform db io ctx (delete doc_id) = delete_document db io ctx doc_id
perform db io ctx (undelete doc_id) = do _ ← undelete_document db io ctx doc_id; pure tt

-- The store after a request, whether it commits or fails.
unfoldable pub serve : Db → Inputs → AuthContext → Request → Store → Store
unfolding commit
serve db io ctx r s = (commit (perform db io ctx r) s).0

-- A history: who asks, with what read from outside, for what.
unfoldable pub serve_all : Db → List (Inputs × AuthContext × Request) → Store → Store
unfolding serve
serve_all db [] s = s
serve_all db ((io, ctx, r) ∷ rest) s = serve_all db rest (serve db io ctx r s)

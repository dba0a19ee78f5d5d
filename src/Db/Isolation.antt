-- ===== src/Db/Isolation.antt =====
-- Tenant isolation: the statements leave the rows of every other organization as they are.
pub mod Documents
use md_manager.Base.{
  ℕ, suc, Bool, true, false, not, ◌&&◌, ◌||◌, Option, none, some, List, [], ◌∷◌, ◌≡◌, refl, ◌∙◌,
  filter, ◌==◌, nat_eq, if◌then◌else◌, arith, ℕ_discrete, String, Bool-cases, inl, inr, any, leb,
}
use md_manager.Fault.{Error, Result, ok, err, Result-cases}
use md_manager.Text.{Text, len}
use md_manager.Chunk.{Chunk, chunk_markdown}
use md_manager.Crypto.{Hashes}
use md_manager.Model.{AuthContext, VersionKind}
use md_manager.Db.{Inputs, Db}
use md_manager.Db.Access.{in_org, member_of}
use md_manager.Db.Rows.{update_rows, insert_row, delete_rows}
use md_manager.Db.Reindex.{
  reindex_chunks, reindexed, insert_chunks, insert_chunk, delete_changed, chunk_row, of_document,
  kept_indices, to_insert,
}
use md_manager.Db.Statements.{
  set_content, at_id, content_ceiling, insert_version, audit, version_row,
}
use md_manager.Db.Tables.{Store, DocumentRow, ChunkRow, VersionRow, AuditRow, Scalar}
use md_manager.Db.Tx.{Tx}
use md_manager.Db.Tx.Keeps.{Keeps, IsPreorder, Keeps-write, Wrote-elim}

module _ {R : Type 0} (org_of : R → ℕ) (org_id : ℕ) where
  -- The rows of the other organizations, in order.
  abbrev pub foreign : List R → List R
  foreign = filter (λ r. not (in_org org_id (org_of r)))

  pub foreign-update_rows :
      (p : R → Bool) (f : R → R) (rows : List R)
      → ((r : R) → p r ≡ true → org_of r ≡ org_id)
      → ((r : R) → org_of (f r) ≡ org_of r)
      → foreign (update_rows p f rows) ≡ foreign rows
  unfolding update_rows
  foreign-update_rows p f [] mine same = refl
  foreign-update_rows p f (r ∷ rows) mine same =
      ground (arith, foreign-update_rows p f rows mine same, mine r, same r)

  pub foreign-delete_rows :
      (p : R → Bool) (rows : List R)
      → ((r : R) → p r ≡ true → org_of r ≡ org_id)
      → foreign (delete_rows p rows) ≡ foreign rows
  foreign-delete_rows p [] mine = refl
  foreign-delete_rows p (r ∷ rows) mine = ground (arith, foreign-delete_rows p rows mine, mine r)

  pub foreign-insert_row :
      (constraint : String) (clash : R → Bool) (r : R) (rows more : List R)
      → org_of r ≡ org_id
      → insert_row constraint clash r rows ≡ ok more
      → foreign more ≡ foreign rows
  unfolding insert_row
  foreign-insert_row constraint clash r rows more mine h = ground arith

-- The tables of members, projects, teams, grants, keys, accounts and OAuth are the same before and after, and so are the
-- other organizations' documents, versions, chunks and audit entries.
pub record SameForeign (org_id : ℕ) (s t : Store) : Type 0 where
  pub members : t.members ≡ s.members
  pub projects : t.projects ≡ s.projects
  pub teams : t.teams ≡ s.teams
  pub api_keys : t.api_keys ≡ s.api_keys
  pub team_members : t.team_members ≡ s.team_members
  pub project_grants : t.project_grants ≡ s.project_grants
  pub document_grants : t.document_grants ≡ s.document_grants
  pub accounts : t.accounts ≡ s.accounts
  pub oauth : t.oauth ≡ s.oauth
  pub documents :
      foreign (λ r. r.org_id) org_id t.documents ≡ foreign (λ r. r.org_id) org_id s.documents
  pub versions :
      foreign (λ r. r.org_id) org_id t.versions ≡ foreign (λ r. r.org_id) org_id s.versions
  pub chunks : foreign (λ r. r.org_id) org_id t.chunks ≡ foreign (λ r. r.org_id) org_id s.chunks
  pub audit_log :
      foreign (λ r. r.org_id) org_id t.audit_log ≡ foreign (λ r. r.org_id) org_id s.audit_log

pub SameForeign-refl : (org_id : ℕ) (s : Store) → SameForeign org_id s s
SameForeign-refl org_id s = record {
  members = refl;
  projects = refl;
  teams = refl;
  api_keys = refl;
  team_members = refl;
  project_grants = refl;
  document_grants = refl;
  accounts = refl;
  oauth = refl;
  documents = refl;
  versions = refl;
  chunks = refl;
  audit_log = refl;
}

pub SameForeign-preorder : (org_id : ℕ) → IsPreorder (SameForeign org_id)
SameForeign-preorder org_id = record {
  reflexive = SameForeign-refl org_id;
  transitive = λ s t u h k. record {
    members = k.members ∙ h.members;
    projects = k.projects ∙ h.projects;
    teams = k.teams ∙ h.teams;
    api_keys = k.api_keys ∙ h.api_keys;
    team_members = k.team_members ∙ h.team_members;
    project_grants = k.project_grants ∙ h.project_grants;
    document_grants = k.document_grants ∙ h.document_grants;
    accounts = k.accounts ∙ h.accounts;
    oauth = k.oauth ∙ h.oauth;
    documents = k.documents ∙ h.documents;
    versions = k.versions ∙ h.versions;
    chunks = k.chunks ∙ h.chunks;
    audit_log = k.audit_log ∙ h.audit_log;
  };
}

module _ (org_id : ℕ) where
  in_org_eq : (row_org : ℕ) (b : Bool) → (in_org org_id row_org && b) ≡ true → row_org ≡ org_id
  in_org_eq row_org b h = ground arith

  -- A write to the tables of the documents.
  pub rewrite_tables :
      (s : Store) (d : List DocumentRow) (v : List VersionRow) (c : List ChunkRow)
      (a : List AuditRow)
      → foreign (λ r. r.org_id) org_id d ≡ foreign (λ r. r.org_id) org_id s.documents
      → foreign (λ r. r.org_id) org_id v ≡ foreign (λ r. r.org_id) org_id s.versions
      → foreign (λ r. r.org_id) org_id c ≡ foreign (λ r. r.org_id) org_id s.chunks
      → foreign (λ r. r.org_id) org_id a ≡ foreign (λ r. r.org_id) org_id s.audit_log
      → SameForeign org_id s (record s { documents = d; versions = v; chunks = c; audit_log = a })
  rewrite_tables s d v c a hd hv hc ha = record {
    members = refl;
    projects = refl;
    teams = refl;
    api_keys = refl;
    team_members = refl;
    project_grants = refl;
    document_grants = refl;
    accounts = refl;
    oauth = refl;
    documents = hd;
    versions = hv;
    chunks = hc;
    audit_log = ha;
  }

module _ (org_id doc_id : ℕ) where
  pub set_content-SameForeign :
      (content : Text) (change : DocumentRow → DocumentRow)
      → ((d : DocumentRow) → (change d).org_id ≡ d.org_id)
      → Keeps (SameForeign org_id) (set_content org_id doc_id content change)
  unfolding set_content
  set_content-SameForeign content change same =
      Keeps-write (SameForeign org_id) (SameForeign-preorder org_id) _ λ s.
        elim (Bool-cases (leb (len content) content_ceiling)) [
          | inl fits ↦ rw fits (
              rewrite_tables org_id s _ s.versions s.chunks s.audit_log
                (foreign-update_rows (λ r. r.org_id) org_id (at_id org_id doc_id) change s.documents
                  (λ r. in_org_eq org_id r.org_id _) same)
                refl refl refl)
          | inr big ↦ rw big tt
        ]

module _ (ctx : AuthContext) where
  -- The rows that are not the caller's organization's.
  abbrev others : {R : Type 0} → (R → ℕ) → List R → List R
  others org_of = foreign org_of ctx.org_id

  pub insert_version-SameForeign :
      (io : Inputs) (row_id doc_id version : ℕ) (content hash : Text) (kind : VersionKind)
      → Keeps
          (SameForeign ctx.org_id)
          (insert_version io ctx row_id doc_id version content hash kind)
  unfolding insert_version
  insert_version-SameForeign io row_id doc_id version content hash kind =
      Keeps-write (SameForeign ctx.org_id) (SameForeign-preorder ctx.org_id) _ λ s.
        Wrote-elim (SameForeign ctx.org_id) s (insert_row _ _ _ s.versions) _ λ rows e.
          rewrite_tables ctx.org_id s s.documents rows s.chunks s.audit_log refl
            (foreign-insert_row (λ r. r.org_id) ctx.org_id _ _ _ s.versions rows refl e) refl refl

  pub audit-SameForeign :
      (io : Inputs) (row_id : ℕ) (action : String) (target : Option Scalar)
      (metadata : List (String × Scalar))
      → Keeps (SameForeign ctx.org_id) (audit io ctx row_id action target metadata)
  unfolding audit
  audit-SameForeign io row_id action target metadata =
      Keeps-write (SameForeign ctx.org_id) (SameForeign-preorder ctx.org_id) _ λ s.
        Wrote-elim (SameForeign ctx.org_id) s (insert_row _ _ _ s.audit_log) _ λ rows e.
          rewrite_tables ctx.org_id s s.documents s.versions s.chunks rows refl refl refl
            (foreign-insert_row (λ r. r.org_id) ctx.org_id _ _ _ s.audit_log rows refl e)

  module _ (h : Hashes) (doc_id : ℕ) where
    delete_changed-foreign :
        (keep : List ℕ) (rows : List ChunkRow)
        → others (λ r. r.org_id) (delete_changed h ctx doc_id keep rows)
          ≡ others (λ r. r.org_id) rows
    unfolding delete_changed
    delete_changed-foreign keep rows =
        foreign-delete_rows (λ r. r.org_id) ctx.org_id _ rows λ r p. ground arith

    insert_chunks-foreign :
        (ids : ℕ → ℕ) (k : ℕ) (cs : List Chunk) (rows more : List ChunkRow)
        → insert_chunks h ctx doc_id ids k cs rows ≡ ok more
        → others (λ r. r.org_id) more ≡ others (λ r. r.org_id) rows
    unfolding insert_chunks
    insert_chunks-foreign ids k [] rows more e = ground arith
    insert_chunks-foreign ids k (c ∷ cs) rows more e =
        elim (Result-cases (insert_chunk h ctx doc_id (ids k) c rows)) [
          | inl (next, f) ↦
              insert_chunks-foreign ids (suc k) cs next more (rw (f, insert_chunks) at e)
              ∙ foreign-insert_row (λ r. r.org_id) ctx.org_id _ _ _ rows next refl f
          | inr (x, f) ↦ absurd (ground (arith, f))
        ]

    pub reindex_chunks-SameForeign :
        (ids : ℕ → ℕ) (content : Text)
        → Keeps (SameForeign ctx.org_id) (reindex_chunks h ctx doc_id ids content)
    unfolding reindex_chunks
    reindex_chunks-SameForeign ids content =
        Keeps-write (SameForeign ctx.org_id) (SameForeign-preorder ctx.org_id) _ λ s.
          Wrote-elim (SameForeign ctx.org_id) s (reindexed h ctx doc_id ids _ s.chunks) _ λ rows e.
            rewrite_tables ctx.org_id s s.documents s.versions rows s.audit_log refl refl
              (insert_chunks-foreign ids 0 _ _ rows e ∙ delete_changed-foreign _ s.chunks) refl

-- ===== src/Tests/Core.antt =====
-- Roles, chunks and tokens on concrete inputs.
use md_manager.Base.{
  arith, ◌≤◌, bytes_eq, ◌≢◌, ◌⊎◌, true, false, some, [], ◌∷◌, ◌++◌, ◌≡◌, refl, ◌↔◌, All, ℕ_discrete,
}
use md_manager.Fault.{ok}
use md_manager.Model.{
  OrgRole, Role, ActorType, VersionKind, at_least, role_as_str, role_from_db, org_role_as_str,
  org_role_from_db, actor_type_as_str, actor_type_from_db, version_kind_as_str,
  version_kind_from_db,
}
use md_manager.Model.RoundTrip.{from_db_iff}
use md_manager.Rbac.{DocAccess, resolve_doc_role}
use md_manager.Rbac.Resolution.{IsAllowed, resolve_doc_role_iff}
use md_manager.Text.{Text, lit, len, len_utf8, starts_with, contains_char, split, join}
use md_manager.Text.Laws.{squeeze}
use md_manager.Chunk.{chunk_markdown_with}
use md_manager.Chunk.Preserves.{text_of_chunks, chunk_markdown_with_preserves}
use md_manager.Chunk.Numbering.{Numbered, IsTight, chunk_markdown_with_shape}
use md_manager.Oauth.{validate_redirect_uri}
use md_manager.Oauth.Hosts.{HasHost}
use md_manager.Oauth.Redirects.{Loopback, validate_redirect_uri_sound}
use md_manager.Validate.{validate_path}
use md_manager.Validate.Paths.{IsSegment, validate_path_iff}
use md_manager.Crypto.{Hashes, GeneratedKey, generate_token, token_prefix, hash_token, verify_token}
use md_manager.Crypto.Tokens.{generate_token-token_prefix}

abbrev demoted : DocAccess
demoted = record { org_role = OrgRole.viewer; grant_roles = Role.editor ∷ []; denied = false }

role_example :
    (at_least (resolve_doc_role demoted) Role.viewer ≡ true) ↔ IsAllowed demoted Role.viewer
role_example = resolve_doc_role_iff demoted Role.viewer (omega arith)

words_example :
    ((r : Role) → (role_from_db "editor" ≡ ok r) ↔ (role_as_str r ≡ "editor"))
    × ((r : OrgRole) → (org_role_from_db "editor" ≡ ok r) ↔ (org_role_as_str r ≡ "editor"))
    × ((a : ActorType) → (actor_type_from_db "editor" ≡ ok a) ↔ (actor_type_as_str a ≡ "editor"))
    × ((k : VersionKind)
        → (version_kind_from_db "editor" ≡ ok k) ↔ (version_kind_as_str k ≡ "editor"))
words_example = from_db_iff "editor"

abbrev page : Text
page = lit "# A" ++ b'\n' ∷ (lit "one" ++ b'\n' ∷ (lit "## B" ++ b'\n' ∷ lit "two"))

preserves_example : squeeze (text_of_chunks (chunk_markdown_with page 10)) ≡ squeeze page
preserves_example = chunk_markdown_with_preserves page 10

shape_example : Numbered 0 (chunk_markdown_with page 10) × All IsTight (chunk_markdown_with page 10)
shape_example = chunk_markdown_with_shape page 10

redirect_example :
    (contains_char (lit "http://localhost:80/cb") b'#' ≡ false)
    × ((scheme : Text) × (rest : Text) × (host : Text) × (lit "http://localhost:80/cb"
          ≡ scheme ++ (lit "://" ++ rest))
        × HasHost rest host
        × (((scheme ≡ lit "https") × (host ≢ [])) ⊎ ((scheme ≡ lit "http") × Loopback host)))
unfolding validate_redirect_uri starts_with ℕ_discrete bytes_eq
redirect_example = validate_redirect_uri_sound (lit "http://localhost:80/cb") refl

path_example :
    ((validate_path (lit "docs/plan.md") ≡ ok tt)
      ↔ ((len (lit "docs/plan.md") ≤ 512) × All IsSegment (split b'/' (lit "docs/plan.md"))))
    × (join (lit "/") (split b'/' (lit "docs/plan.md")) ≡ lit "docs/plan.md")
path_example = validate_path_iff (lit "docs/plan.md")

abbrev hashes : Hashes
hashes = record { sha256_hex = λ t. t; hmac_sha256_hex = λ k t. k ++ t; sha256_base64url = λ t. t }

token_example :
    (key : GeneratedKey) × (generate_token (lit "mk") (lit "0123456789ab") ≡ ok key)
    × (key.secret ≡ lit "mk_0123456789ab")
    × (key.prefix ≡ lit "mk_01234567")
    × (token_prefix (lit "mk") key.secret ≡ ok (some key.prefix))
    × (verify_token hashes (lit "p") key.secret (hash_token hashes (lit "p") key.secret) ≡ true)
unfolding len len_utf8
token_example =
    generate_token-token_prefix hashes (lit "p") (lit "mk") (lit "01234567") (lit "89ab") refl

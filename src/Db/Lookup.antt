-- ===== src/Db/Lookup.antt =====
-- The lookup of a presented token, which the tables of tokens share: the rows with the token's
-- prefix, and the one among them that has the token's hash. crates/db/src/oauth.rs and share.rs
-- write it out at each use.
pub mod Laws
use md_manager.Base.{
  Bool, ◌&&◌, Option, none, some, List, find, filter, ◌==◌, bytes_eq, if◌then◌else◌,
}
use md_manager.Fault.{Error, Result, ok, err, ok_or, ◌>>=◌}
use md_manager.Text.{Text}
use md_manager.Crypto.{token_prefix, verify_token}
use md_manager.Db.{Db}

module _ {R : Type 0} (db : Db) (prefix_of hash_of : R → Text) where
  -- `WHERE … = $1`, and `find(|r| verify_token(…))` on the candidates.
  unfoldable pub matching : Text → Text → List R → Option R
  matching secret prefix rows =
      find (λ r. verify_token db.hashes db.pepper secret (hash_of r))
        (filter (λ r. prefix_of r == prefix) rows)

  unfoldable pub presented : Text → Error → Text → List R → Result R
  unfolding matching
  presented scheme fault secret rows = do
    found ← token_prefix scheme secret
    prefix ← ok_or found fault
    ok_or (matching secret prefix rows) fault

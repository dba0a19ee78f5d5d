-- ===== src/Db/Lookup/Laws.antt =====
-- What a lookup finds, and that a change of the rows which leaves the prefixes and hashes alone
-- shows up in the row that is found.
use md_manager.Base.{
  subst, Bool, true, false, none, some, List, [], ◌∷◌, ◌++◌, ◌≡◌, ap, ◌∙◌, bytes_eq, if◌then◌else◌,
  arith, inl, inr, Option-cases, ==_iff,
}
use md_manager.Fault.{Error, ok, Result-cases}
use md_manager.Text.{Text, len}
use md_manager.Crypto.{token_prefix, verify_token, hash_token, generate_token, GeneratedKey}
use md_manager.Crypto.Tokens.{generate_token-token_prefix}
use md_manager.Db.{Db}
use md_manager.Db.Rows.{update_rows}
use md_manager.Db.Rows.Laws.{find-filter}
use md_manager.Db.Lookup.{matching, presented}

module _ {R : Type 0} (db : Db) (prefix_of hash_of : R → Text) where
  matching_lem :
      (secret prefix : Text) (rows : List R) (r : R)
      → matching db prefix_of hash_of secret prefix rows ≡ some r
      → (verify_token db.hashes db.pepper secret (hash_of r) ≡ true) × (prefix_of r ≡ prefix)
  unfolding matching
  matching_lem secret prefix rows r h =
      let (a, b) = find-filter _ _ rows r h in (a, (==_iff {A = Text} _ _).0 b)

  -- The row that is found has the token's prefix and hash.
  pub presented-eq-ok :
      (scheme : Text) (fault : Error) (secret : Text) (rows : List R) (r : R)
      → presented db prefix_of hash_of scheme fault secret rows ≡ ok r
      → (token_prefix scheme secret ≡ ok (some (prefix_of r)))
        × (matching db prefix_of hash_of secret (prefix_of r) rows ≡ some r)
        × (verify_token db.hashes db.pepper secret (hash_of r) ≡ true)
  unfolding presented
  presented-eq-ok scheme fault secret rows r h = elim (Result-cases (token_prefix scheme secret)) [
    | inr (x, e) ↦ absurd (ground arith)
    | inl (none, e) ↦ absurd (ground arith)
    | inl (some prefix, e) ↦
        elim (Option-cases (matching db prefix_of hash_of secret prefix rows)) [
          | inl e2 ↦ absurd (ground arith)
          | inr (k, e2) ↦
              let same : k ≡ r = ground arith in
              let (a, b) = matching_lem secret prefix rows r (e2 ∙ ap some same) in ground arith
        ]
  ]

  pub presented_found :
      (scheme : Text) (fault : Error) (secret prefix : Text) (rows : List R) (r : R)
      → token_prefix scheme secret ≡ ok (some prefix)
      → matching db prefix_of hash_of secret prefix rows ≡ some r
      → presented db prefix_of hash_of scheme fault secret rows ≡ ok r
  unfolding presented
  presented_found scheme fault secret prefix rows r h k = ground arith

  module _ (p : R → Bool) (f : R → R) (same_prefix : (r : R) → prefix_of (f r) ≡ prefix_of r)
      (same_hash : (r : R) → hash_of (f r) ≡ hash_of r) where
    matching-update_rows :
        (secret prefix : Text) (rows : List R) (r : R)
        → matching db prefix_of hash_of secret prefix rows ≡ some r
        → matching db prefix_of hash_of secret prefix (update_rows p f rows)
          ≡ some (if p r then f r else r)
    unfolding matching update_rows
    matching-update_rows secret prefix [] r h = absurd (ground arith)
    matching-update_rows secret prefix (x ∷ rows) r h =
        ground (arith, matching-update_rows secret prefix rows r, same_prefix x, same_hash x)

    pub presented-update_rows :
        (scheme : Text) (fault : Error) (secret : Text) (rows : List R) (r : R)
        → presented db prefix_of hash_of scheme fault secret rows ≡ ok r
        → presented db prefix_of hash_of scheme fault secret (update_rows p f rows)
          ≡ ok (if p r then f r else r)
    presented-update_rows scheme fault secret rows r h =
        let (a, b, c) = presented-eq-ok scheme fault secret rows r h in
        presented_found scheme fault secret _ _ _ a
          (matching-update_rows secret (prefix_of r) rows r b)

  -- A new row in front that does not have the token's hash is passed over.
  pub presented_skip :
      (scheme : Text) (fault : Error) (secret : Text) (rows : List R) (new r : R)
      → verify_token db.hashes db.pepper secret (hash_of new) ≡ false
      → presented db prefix_of hash_of scheme fault secret rows ≡ ok r
      → presented db prefix_of hash_of scheme fault secret (new ∷ rows) ≡ ok r
  unfolding presented matching
  presented_skip scheme fault secret rows new r differs h =
      let (a, b, c) = presented-eq-ok scheme fault secret rows r h in ground arith

  matching_front :
      (secret prefix : Text) (rows : List R) (r : R)
      → prefix_of r ≡ prefix
      → verify_token db.hashes db.pepper secret (hash_of r) ≡ true
      → matching db prefix_of hash_of secret prefix (r ∷ rows) ≡ some r
  unfolding matching
  matching_front secret prefix rows r same_prefix verified = ground arith

  -- The token whose row was just inserted is found.
  pub presented_front :
      (scheme : Text) (fault : Error) (first rest : Text) (rows : List R) (r : R)
      (key : GeneratedKey)
      → generate_token scheme (first ++ rest) ≡ ok key
      → len first ≡ 8
      → prefix_of r ≡ key.prefix
      → hash_of r ≡ hash_token db.hashes db.pepper key.secret
      → presented db prefix_of hash_of scheme fault key.secret (r ∷ rows) ≡ ok r
  presented_front scheme fault first rest rows r key minted size same_prefix same_hash =
      let (k, a, _, _, d, e) =
        generate_token-token_prefix db.hashes db.pepper scheme first rest size in
      let same : k ≡ key = ground arith in
      let found : token_prefix scheme key.secret ≡ ok (some key.prefix) =
        subst (λ x. token_prefix scheme x.secret ≡ ok (some x.prefix)) same d in
      let verified : verify_token db.hashes db.pepper key.secret (hash_of r) ≡ true = rw same_hash (
        subst
          (λ x.
            verify_token db.hashes db.pepper x.secret (hash_token db.hashes db.pepper x.secret)
            ≡ true)
          same e) in
      presented_found scheme fault key.secret key.prefix (r ∷ rows) r found
        (matching_front key.secret key.prefix rows r same_prefix verified)

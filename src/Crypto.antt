-- ===== src/Crypto.antt =====
-- crates/core/src/crypto.rs: hashes of documents and scheme-prefixed tokens.
-- The hash functions (crates sha2, hmac, hex) and the random bytes (crate rand) are not part of
-- the repository: `Hashes` holds the functions, and a fresh token's hex digits are an argument.
pub mod Tokens
use md_manager.Base.{
  ℕ, ◌+◌, ◌-◌, nat_eq, Bool, ◌&&◌, Option, none, some, ◌++◌, ◌∷◌, [], take, leb, ◌==◌, bytes_eq,
  if◌then◌else◌,
}
use md_manager.Fault.{Result, ok, err, panic, ◌>>=◌}
use md_manager.Text.{lit, len_utf8, Text, len, starts_with}

pub record Hashes : Type 0 where
  -- `hex::encode` of the SHA-256 of a text, and of a text's HMAC-SHA256 under a key
  pub sha256_hex : Text → Text
  pub hmac_sha256_hex : Text → Text → Text
  -- base64url, with no padding, of the SHA-256 of a text
  pub sha256_base64url : Text → Text

unfoldable pub content_hash : Hashes → Text → Text
content_hash h content = h.sha256_hex content

unfoldable pub hmac_hex : Hashes → Text → Text → Text
hmac_hex h key msg = h.hmac_sha256_hex key msg

pub record GeneratedKey : Type 0 where
  pub secret : Text
  pub prefix : Text

-- `&s[..n]`: the characters of the first `n` bytes. The slice panics where `n` lies past the end
-- or inside a character.
unfoldable pub slice_to : Text → ℕ → Result Text
unfolding len_utf8
slice_to [] n = if n == 0 then ok [] else err panic
slice_to (c ∷ cs) n =
    let rest = slice_to cs (n - len_utf8 c) in
    if n == 0 then ok [] else if leb (len_utf8 c) n then (do t ← rest; ok (c ∷ t)) else err panic

unfoldable pub generate_token : Text → Text → Result GeneratedKey
unfolding slice_to
generate_token scheme hex = do
  let secret = scheme ++ (b'_' ∷ hex)
  prefix ← slice_to secret (len scheme + 1 + 8)
  ok (record { secret = secret; prefix = prefix })

unfoldable pub token_prefix : Text → Text → Result (Option Text)
unfolding slice_to
token_prefix scheme secret =
    let head = len scheme + 1 in
    if starts_with secret (scheme ++ b'_' ∷ []) && leb (head + 8) (len secret)
    then (do prefix ← slice_to secret (head + 8); ok (some prefix))
    else ok none

unfoldable pub hash_token : Hashes → Text → Text → Text
unfolding hmac_hex
hash_token h pepper secret = hmac_hex h pepper secret

unfoldable pub verify_token : Hashes → Text → Text → Text → Bool
verify_token h pepper secret stored_hash = hash_token h pepper secret == stored_hash

-- API keys (scheme `mk`) and share links (scheme `sl`)
unfoldable pub generate_api_key : Text → Result GeneratedKey
unfolding generate_token
generate_api_key hex = generate_token (lit "mk") hex

unfoldable pub key_prefix : Text → Result (Option Text)
unfolding token_prefix
key_prefix secret = token_prefix (lit "mk") secret

unfoldable pub hash_api_key : Hashes → Text → Text → Text
unfolding hash_token
hash_api_key h pepper secret = hash_token h pepper secret

unfoldable pub verify_api_key : Hashes → Text → Text → Text → Bool
unfolding verify_token
verify_api_key h pepper secret stored_hash = verify_token h pepper secret stored_hash

unfoldable pub generate_share_token : Text → Result GeneratedKey
unfolding generate_token
generate_share_token hex = generate_token (lit "sl") hex

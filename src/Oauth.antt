-- ===== src/Oauth.antt =====
-- crates/core/src/oauth.rs: token schemes, PKCE, and the validation of redirect URIs. A
-- `Result<(), String>` is a sum: `inl tt` for `Ok(())`, `inr` for the message.
pub mod Hosts
pub mod Redirects
use md_manager.Base.{
  ℕ, String, Bool, true, false, not, ◌&&◌, ◌||◌, Option, none, some, List, [], ◌∷◌, drop, length,
  ltb, ◌==◌, nat_eq, bytes_eq, if◌then◌else◌, ◌⊎◌, inl, inr,
}
use md_manager.Fault.{Result, ok, ◌>>=◌}
use md_manager.Text.{Text, lit, len, is_empty, starts_with, contains_char}
use md_manager.Crypto.{Hashes, GeneratedKey, generate_token}

abbrev pub access_token_scheme : Text
access_token_scheme = lit "mo"

abbrev pub refresh_token_scheme : Text
refresh_token_scheme = lit "mor"

abbrev pub auth_code_scheme : Text
auth_code_scheme = lit "moc"

abbrev pub client_secret_scheme : Text
client_secret_scheme = lit "mocs"

abbrev pub client_id_scheme : Text
client_id_scheme = lit "cid"

unfoldable pub generate_access_token : Text → Result GeneratedKey
unfolding generate_token
generate_access_token hex = generate_token access_token_scheme hex

unfoldable pub generate_refresh_token : Text → Result GeneratedKey
unfolding generate_token
generate_refresh_token hex = generate_token refresh_token_scheme hex

unfoldable pub generate_auth_code : Text → Result GeneratedKey
unfolding generate_token
generate_auth_code hex = generate_token auth_code_scheme hex

unfoldable pub generate_client_secret : Text → Result GeneratedKey
unfolding generate_token
generate_client_secret hex = generate_token client_secret_scheme hex

unfoldable pub generate_client_id : Text → Result Text
unfolding generate_token
generate_client_id hex = do key ← generate_token client_id_scheme hex; ok key.secret

unfoldable pub verify_pkce_s256 : Hashes → Text → Text → Bool
verify_pkce_s256 h verifier challenge =
    if ltb (len verifier) 43 || ltb 128 (len verifier)
    then false
    else h.sha256_base64url verifier == challenge

abbrev cons_first : ℕ → Option (Text × Text) → Option (Text × Text)
cons_first c none = none
cons_first c (some (a, b)) = some (c ∷ a, b)

-- `str::split_once`: what stands before and after the first occurrence.
unfoldable pub split_once : Text → Text → Option (Text × Text)
unfolding starts_with
split_once sep [] = if starts_with [] sep then some ([], []) else none
split_once sep (c ∷ cs) =
    if starts_with (c ∷ cs) sep
    then some ([], drop (length sep) (c ∷ cs))
    else cons_first c (split_once sep cs)

-- `s.split(p).next()`
unfoldable pub take_until : (ℕ → Bool) → Text → Text
take_until p [] = []
take_until p (c ∷ cs) = if p c then [] else c ∷ take_until p cs

-- `s.rsplit_once(x).map(|(_, h)| h)`
unfoldable pub after_last : ℕ → Text → Option Text
after_last x [] = none
after_last x (c ∷ cs) = elim (after_last x cs) [
  | some t ↦ some t
  | none ↦ if c == x then some cs else none
]

unfoldable pub host_of : Text → Text
unfolding take_until after_last starts_with contains_char
host_of rest =
    let whole = take_until (λ c. c == b'/' || c == b'?') rest in
    let authority : Text = elim (after_last b'@' whole) [ some h ↦ h | none ↦ whole ] in
    if starts_with authority (lit "[") && contains_char authority b']'
    then take_until (λ c. c == b']') (drop 1 authority)
    else take_until (λ c. c == b':') authority

unfoldable pub is_loopback : Text → Bool
is_loopback host = host == lit "localhost" || host == lit "127.0.0.1" || host == lit "::1"

-- The match on the scheme.
unfoldable pub check_scheme : Text → Text → Unit {0} ⊎ String
unfolding is_loopback
check_scheme scheme host =
    if scheme == lit "https"
    then (if is_empty host then inr "redirect_uri host is empty" else inl tt)
    else if scheme == lit "http"
    then (if is_loopback host
        then inl tt
        else inr "http redirect_uri is only allowed for loopback (localhost / 127.0.0.1)")
    else inr "redirect_uri scheme must be https (or http for loopback)"

unfoldable pub validate_redirect_uri : Text → Unit {0} ⊎ String
unfolding split_once host_of check_scheme contains_char
validate_redirect_uri uri =
    if contains_char uri b'#'
    then inr "redirect_uri must not contain a fragment"
    else elim (split_once (lit "://") uri) [
      | none ↦ inr "redirect_uri must be an absolute URL"
      | some (scheme, rest) ↦ check_scheme scheme (host_of rest)
    ]

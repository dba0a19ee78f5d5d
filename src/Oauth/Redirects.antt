-- ===== src/Oauth/Redirects.antt =====
-- What an accepted redirect URI looks like.
use md_manager.Base.{
  true, false, some, [], ◌∷◌, ◌++◌, drop, length, nat_eq, bytes_eq, ◌==◌, ==_iff, ◌⊎◌, inl, inr,
  ◌≡◌, ◌≢◌, refl, arith, Bool-cases, Option-cases,
}
use md_manager.Text.{Text, lit, starts_with, contains_char}
use md_manager.Oauth.Hosts.{HasHost, host_of-HasHost}
use md_manager.Oauth.{validate_redirect_uri, check_scheme, split_once, host_of, is_loopback}

-- A text that starts with another is that one and the rest.
starts_with-drop : (s p : Text) → starts_with s p ≡ true → s ≡ p ++ drop (length p) s
unfolding starts_with
starts_with-drop s [] h = refl
starts_with-drop [] (p ∷ ps) h = ground arith
starts_with-drop (c ∷ cs) (p ∷ ps) h = ground (arith, starts_with-drop cs ps)

split_once_lem : (sep s a b : Text) → split_once sep s ≡ some (a, b) → s ≡ a ++ (sep ++ b)
unfolding split_once starts_with
split_once_lem [] [] a b h = ground arith
split_once_lem (p ∷ ps) [] a b h = absurd (ground arith)
split_once_lem sep (c ∷ cs) a b h = elim (Bool-cases (starts_with (c ∷ cs) sep)) [
  | inl e ↦ (let w = starts_with-drop (c ∷ cs) sep e in ground arith)
  | inr e ↦ elim (Option-cases (split_once sep cs)) [
    | inl f ↦ absurd (ground arith)
    | inr ((a2, b2), f) ↦ (let w = split_once_lem sep cs a2 b2 f in ground arith)
  ]
]

-- The names of the loopback.
abbrev pub Loopback : Text → Type 0
Loopback host = (host ≡ lit "localhost") ⊎ (host ≡ lit "127.0.0.1") ⊎ (host ≡ lit "::1")

loopback_lem : (host : Text) → is_loopback host ≡ true → Loopback host
unfolding is_loopback
loopback_lem host h = elim (Bool-cases (host == lit "localhost")) [
  | inl a ↦ inl (ground arith)
  | inr na ↦ elim (Bool-cases (host == lit "127.0.0.1")) [
    | inl b ↦ inr (inl (ground arith))
    | inr nb ↦ elim (Bool-cases (host == lit "::1")) [
      | inl d ↦ inr (inr ((==_iff {A = Text} host (lit "::1")).0 d))
      | inr nd ↦ absurd (ground arith)
    ]
  ]
]

scheme_lem :
    (scheme host : Text)
    → check_scheme scheme host ≡ inl tt
    → ((scheme ≡ lit "https") × (host ≢ [])) ⊎ ((scheme ≡ lit "http") × Loopback host)
unfolding check_scheme
scheme_lem scheme host h = elim (Bool-cases (scheme == lit "https")) [
  | inl a ↦ inl (ground arith, ground arith)
  | inr na ↦ inr (ground arith, loopback_lem host (ground arith))
]

-- A redirect URI that is accepted has no fragment, and it is a scheme, `://` and a rest, where the
-- scheme is `https` and the host of the rest is not empty, or the scheme is `http` and the host is
-- `localhost`, `127.0.0.1` or `::1`. The host is what stands in brackets, or before a port, after the
-- last `@` of what comes before the first `/` or `?`.
pub validate_redirect_uri_sound :
    (uri : Text)
    → validate_redirect_uri uri ≡ inl tt
    → (contains_char uri b'#' ≡ false)
      × ((scheme : Text) × (rest : Text) × (host : Text) × (uri ≡ scheme ++ (lit "://" ++ rest))
          × HasHost rest host
          × (((scheme ≡ lit "https") × (host ≢ [])) ⊎ ((scheme ≡ lit "http") × Loopback host)))
unfolding validate_redirect_uri check_scheme
validate_redirect_uri_sound uri h = elim (Bool-cases (contains_char uri b'#')) [
  | inl e ↦ absurd (ground arith)
  | inr e ↦ elim (Option-cases (split_once (lit "://") uri)) [
    | inl f ↦ absurd (ground arith)
    | inr ((scheme, rest), f) ↦ (
      e,
      (
        scheme,
        rest,
        host_of rest,
        split_once_lem (lit "://") uri scheme rest f,
        host_of-HasHost rest,
        scheme_lem scheme (host_of rest) (ground arith),
      ),
    )
  ]
]

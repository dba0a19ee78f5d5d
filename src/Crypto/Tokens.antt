-- ===== src/Crypto/Tokens.antt =====
-- Tokens and their lookup prefixes.
use mathlib.Core.List.{append_assoc}
use md_manager.Base.{
  ℕ, zero, suc, ◌+◌, ◌-◌, ◌≤◌, Bool, true, ◌&&◌, none, some, [], ◌∷◌, ◌++◌, ◌≡◌, refl, sym, ap, ◌∙◌,
  nat_eq, bytes_eq, if◌then◌else◌, arith, leb, ltb, take, all, length, ==_iff, ℕ_discrete,
}
use md_manager.Fault.{ok}
use md_manager.Text.{Text, len, len_utf8, starts_with}
use md_manager.Crypto.{
  Hashes, GeneratedKey, generate_token, token_prefix, slice_to, hash_token, verify_token,
}

1≤len_utf8 : (c : ℕ) → 1 ≤ len_utf8 c
unfolding len_utf8
1≤len_utf8 c = ground arith

slice_to_append : (s t : Text) → slice_to (s ++ t) (len s) ≡ ok s
unfolding slice_to len ℕ_discrete
slice_to_append [] [] = refl
slice_to_append [] (c ∷ t) = refl
slice_to_append (c ∷ s) t =
    let rest = slice_to_append s t in
    let positive = 1≤len_utf8 c in
    let minus : len_utf8 c + len s - len_utf8 c ≡ len s = omega arith in rw minus (ground arith)

len-append : (s t : Text) → len (s ++ t) ≡ len s + len t
unfolding len
len-append [] t = omega arith
len-append (c ∷ s) t = omega (arith, len-append s t)

starts_with_append : (s t : Text) → starts_with (s ++ t) s ≡ true
unfolding starts_with
starts_with_append [] [] = refl
starts_with_append [] (c ∷ t) = refl
starts_with_append (c ∷ s) t = ground (arith, starts_with_append s t)

len_scheme : (scheme first : Text) → len (scheme ++ b'_' ∷ first) ≡ len scheme + 1 + len first
unfolding len len_utf8
len_scheme scheme first = omega (arith, len-append scheme (b'_' ∷ first))

-- A minted token is found again: its secret is the scheme, an underscore and the random digits, the
-- stored prefix ends with the first eight of them, `token_prefix` computes that same prefix from
-- the secret, and the secret is accepted against its own hash.
pub generate_token-token_prefix :
    (h : Hashes) (pepper scheme first rest : Text)
    → len first ≡ 8
    → (key : GeneratedKey) × (generate_token scheme (first ++ rest) ≡ ok key)
      × (key.secret ≡ scheme ++ b'_' ∷ (first ++ rest))
      × (key.prefix ≡ scheme ++ b'_' ∷ first)
      × (token_prefix scheme key.secret ≡ ok (some key.prefix))
      × (verify_token h pepper key.secret (hash_token h pepper key.secret) ≡ true)
unfolding generate_token token_prefix verify_token
generate_token-token_prefix h pepper scheme first rest e =
    let head : Text = scheme ++ b'_' ∷ first in
    let secret : Text = scheme ++ b'_' ∷ (first ++ rest) in
    let whole : secret ≡ head ++ rest = sym (append_assoc scheme (b'_' ∷ first) rest) in
    let size : len head ≡ len scheme + 1 + 8 =
      len_scheme scheme first ∙ ap (λ n. len scheme + 1 + n) e in
    let sliced : slice_to secret (len scheme + 1 + 8) ≡ ok head =
      rw (sym size, whole) (slice_to_append head rest) in
    let starts : starts_with secret (scheme ++ b'_' ∷ []) ≡ true =
      rw (sym (append_assoc scheme (b'_' ∷ []) (first ++ rest)))
        (starts_with_append (scheme ++ b'_' ∷ []) _) in
    let long : leb (len scheme + 1 + 8) (len secret) ≡ true =
      (let w = len-append head rest in ground (arith, whole, size)) in
    (
      record { secret = secret; prefix = head },
      rw sliced refl,
      refl,
      refl,
      rw (starts, long, sliced) refl,
      (==_iff {A = Text} _ _).1 refl,
    )

abbrev pub is_ascii : Text → Bool
is_ascii = all (λ c. ltb c 128)

len_ascii : (s : Text) → is_ascii s ≡ true → len s ≡ length s
unfolding len len_utf8
len_ascii [] h = refl
len_ascii (c ∷ s) h = ground (arith, len_ascii s)

slice_to_ascii :
    (s : Text) (n : ℕ) → is_ascii s ≡ true → n ≤ length s → slice_to s n ≡ ok (take n s)
unfolding slice_to len_utf8 ℕ_discrete
slice_to_ascii [] zero h fits = refl
slice_to_ascii [] (suc n) h fits = absurd (omega arith)
slice_to_ascii (c ∷ s) zero h fits = refl
slice_to_ascii (c ∷ s) (suc n) h fits = ground (arith, slice_to_ascii s n)

-- A presented secret of ASCII characters is looked up without a panic: its prefix is its first
-- characters, eight past the underscore, where it starts with the scheme and an underscore and is
-- long enough, and there is none otherwise.
pub token_prefix_ascii :
    (scheme secret : Text)
    → is_ascii secret ≡ true
    → token_prefix scheme secret
      ≡ ok (
          if starts_with secret (scheme ++ b'_' ∷ []) && leb (len scheme + 9) (length secret)
          then some (take (len scheme + 9) secret)
          else none)
unfolding token_prefix
token_prefix_ascii scheme secret h =
    let size = len_ascii secret h in
    let sliced = slice_to_ascii secret (len scheme + 1 + 8) h in ground arith

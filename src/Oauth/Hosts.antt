-- ===== src/Oauth/Hosts.antt =====
-- The host of an address, as `host_of` finds it: the text after `://` is cut into an authority and a
-- path or query, and the authority into user information, a host and a port.
use md_manager.Base.{
  ℕ, Bool, true, false, ◌&&◌, ◌||◌, none, some, [], ◌∷◌, ◌++◌, drop, ◌==◌, nat_eq, bytes_eq, ◌⊎◌,
  inl, inr, ◌≡◌, refl, ap, ◌∙◌, arith, Bool-cases, Option-cases, if◌then◌else◌,
}
use mathlib.Core.List.{append-nil}
use md_manager.Text.{Text, lit, starts_with, contains_char}
use md_manager.Oauth.{take_until, after_last, host_of}

-- What comes after the part that was taken is empty or starts with one of the characters that end it.
abbrev pub Ends : (ℕ → Bool) → Text → Type 0
Ends p tail = (tail ≡ []) ⊎ ((c : ℕ) × (more : Text) × (tail ≡ c ∷ more) × (p c ≡ true))

take_until-append :
    (p : ℕ → Bool) (s : Text) → (tail : Text) × (s ≡ take_until p s ++ tail) × Ends p tail
unfolding take_until
take_until-append p [] = ([], refl, inl refl)
take_until-append p (c ∷ cs) = elim (Bool-cases (p c)) [
  | inl e ↦ (c ∷ cs, rw e refl, inr (c, cs, refl, e))
  | inr e ↦
      let (tail, parts, ends) = take_until-append p cs in (tail, rw e (ap (λ t. c ∷ t) parts), ends)
]

contains_char-take_until :
    (p : ℕ → Bool) (s : Text) (x : ℕ) → p x ≡ true → contains_char (take_until p s) x ≡ false
unfolding take_until contains_char
contains_char-take_until p [] x h = refl
contains_char-take_until p (c ∷ cs) x h =
    let rest = contains_char-take_until p cs x h in ground (arith, ap p)

after_last-none : (x : ℕ) (s : Text) → after_last x s ≡ none → contains_char s x ≡ false
unfolding after_last contains_char
after_last-none x [] h = refl
after_last-none x (c ∷ cs) h = elim (Option-cases (after_last x cs)) [
  | inl e ↦ (let rest = after_last-none x cs e in ground arith)
  | inr (t, e) ↦ absurd (ground arith)
]

after_last-some :
    (x : ℕ) (s t : Text)
    → after_last x s ≡ some t
    → (u : Text) × (s ≡ u ++ x ∷ t) × (contains_char t x ≡ false)
unfolding after_last
after_last-some x [] t h = absurd (ground arith)
after_last-some x (c ∷ cs) t h = elim (Option-cases (after_last x cs)) [
  | inl e ↦ (let rest = after_last-none x cs e in ([], ground arith, ground arith))
  | inr (t', e) ↦
      let same : t' ≡ t = ground arith in
      let (u, parts, free) = after_last-some x cs t (ground arith) in
      (c ∷ u, ap (λ s. c ∷ s) parts, free)
]

-- The host of a text without user information: what stands in brackets, or what stands before a
-- port.
abbrev pub Hosts : Text → Text → Type 0
Hosts authority host =
    ((more : Text) × (authority ≡ b'[' ∷ (host ++ b']' ∷ more)) × (contains_char host b']' ≡ false))
    ⊎ (((t : Text) → authority ≡ b'[' ∷ t → contains_char t b']' ≡ false)
        × ((port : Text) × (authority ≡ host ++ port) × Ends (λ c. c == b':') port)
        × (contains_char host b':' ≡ false))

-- The host of what follows `://`: the authority ends before the first `/` or `?`, and the user
-- information, if there is any, before the authority's last `@`.
pub record HasHost (rest host : Text) : Type 0 where
  pub whole : Text
  pub path : Text
  pub parts : rest ≡ whole ++ path
  pub path_ends : Ends (λ c. c == b'/' || c == b'?') path
  pub no_path : (contains_char whole b'/' ≡ false) × (contains_char whole b'?' ≡ false)
  pub authority : Text
  pub no_user : contains_char authority b'@' ≡ false
  pub after_user : (whole ≡ authority) ⊎ ((user : Text) × (whole ≡ user ++ b'@' ∷ authority))
  pub hosts : Hosts authority host

abbrev host_in : Text → Text
host_in authority =
    if starts_with authority (lit "[") && contains_char authority b']'
    then take_until (λ c. c == b']') (drop 1 authority)
    else take_until (λ c. c == b':') authority

bracketed :
    (cs : Text)
    → contains_char cs b']' ≡ true
    → (more : Text) × (cs ≡ take_until (λ c. c == b']') cs ++ b']' ∷ more)
unfolding contains_char
bracketed cs h =
    let p : ℕ → Bool = λ c. c == b']' in
    let (tail, parts, ends) = take_until-append p cs in
    let free = contains_char-take_until p cs b']' (ground arith) in
    elim ends [
      | inl e ↦
          let same : cs ≡ take_until p cs =
            parts ∙ ap (λ t. take_until p cs ++ t) e ∙ append-nil _ in
          absurd (let clash = ap (λ t. contains_char t b']') same in ground arith)
      | inr (c, more, e, same) ↦
          let end : c ≡ b']' = ground arith in
          (more, parts ∙ ap (λ t. take_until p cs ++ t) (e ∙ ap (λ d. d ∷ more) end))
    ]

in_brackets :
    (a : Text)
    → (starts_with a (lit "[") && contains_char a b']') ≡ true
    → (more : Text) × (a ≡ b'[' ∷ (take_until (λ c. c == b']') (drop 1 a) ++ b']' ∷ more))
unfolding starts_with contains_char
in_brackets [] h = absurd (ground arith)
in_brackets (c ∷ cs) h =
    let first : c ≡ b'[' = ground arith in
    let (more, parts) = bracketed cs (ground arith) in
    (more, ap (λ d. d ∷ cs) first ∙ ap (λ t. b'[' ∷ t) parts)

no_brackets :
    (a t : Text)
    → (starts_with a (lit "[") && contains_char a b']') ≡ false
    → a ≡ b'[' ∷ t
    → contains_char t b']' ≡ false
unfolding starts_with contains_char
no_brackets a t h e = let k = rw e at h in ground (arith, k)

host_in-Hosts : (authority : Text) → Hosts authority (host_in authority)
host_in-Hosts authority =
    elim (Bool-cases (starts_with authority (lit "[") && contains_char authority b']')) [
      | inl b ↦
          let (more, parts) = in_brackets authority b in
          rw b (
            inl (
              more,
              parts,
              contains_char-take_until (λ c. c == b']') (drop 1 authority) b']' (ground arith),
            ))
      | inr nb ↦ rw nb (
          inr (
            (λ t e. no_brackets authority t nb e),
            take_until-append (λ c. c == b':') authority,
            contains_char-take_until (λ c. c == b':') authority b':' (ground arith),
          ))
    ]

pub host_of-HasHost : (rest : Text) → HasHost rest (host_of rest)
unfolding host_of
host_of-HasHost rest =
    let p : ℕ → Bool = λ c. c == b'/' || c == b'?' in
    let whole = take_until p rest in
    let (path, parts, path_ends) = take_until-append p rest in
    let no_path : (contains_char whole b'/' ≡ false) × (contains_char whole b'?' ≡ false) = (
      contains_char-take_until p rest b'/' (ground arith),
      contains_char-take_until p rest b'?' (ground arith),
    ) in
    elim (Option-cases (after_last b'@' whole)) [
      | inl e ↦ record {
        whole = whole;
        path = path;
        parts = parts;
        path_ends = path_ends;
        no_path = no_path;
        authority = whole;
        no_user = after_last-none b'@' whole e;
        after_user = inl refl;
        hosts = rw e (host_in-Hosts whole);
      }
      | inr (h, e) ↦
          let (user, cut, free) = after_last-some b'@' whole h e in
          record {
            whole = whole;
            path = path;
            parts = parts;
            path_ends = path_ends;
            no_path = no_path;
            authority = h;
            no_user = free;
            after_user = inr (user, cut);
            hosts = rw e (host_in-Hosts h);
          }
    ]

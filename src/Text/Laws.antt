-- ===== src/Text/Laws.antt =====
-- Texts up to whitespace: what trimming, splitting into lines and joining leave alone.
use md_manager.Base.{
  ℕ, true, bytes_eq, not, some, List, [], ◌∷◌, ◌++◌, map, ◌≡◌, refl, sym, ap, ◌∙◌, arith, filter,
  nat_eq, Option-cases, inl, inr, ℕ_discrete,
}
use md_manager.Text.{
  ends_with_char, Text, is_whitespace, is_empty, trim_start, trim_end, trim, push_head,
  split_inclusive, strip_suffix, chomp, lines, flatten,
}

-- The characters of a text that are no whitespace, in order.
abbrev pub squeeze : Text → Text
squeeze = filter (λ c. not (is_whitespace c))

pub squeeze-append : (s t : Text) → squeeze (s ++ t) ≡ squeeze s ++ squeeze t
squeeze-append [] t = refl
squeeze-append (c ∷ s) t = ground (arith, squeeze-append s t)

pub squeeze-trim_end : (s : Text) → squeeze (trim_end s) ≡ squeeze s
unfolding trim_end
squeeze-trim_end [] = refl
squeeze-trim_end (c ∷ s) = ground (arith, squeeze-trim_end s)

pub squeeze-trim_start : (s : Text) → squeeze (trim_start s) ≡ squeeze s
unfolding trim_start
squeeze-trim_start [] = refl
squeeze-trim_start (c ∷ s) = ground (arith, squeeze-trim_start s)

pub trim_end_idem : (s : Text) → trim_end (trim_end s) ≡ trim_end s
unfolding trim_end
trim_end_idem [] = refl
trim_end_idem (c ∷ s) = ground (arith, trim_end_idem s)

is_empty_nil : (s : Text) → is_empty s ≡ true → s ≡ []
is_empty_nil [] h = refl
is_empty_nil (c ∷ s) h = cc

-- A text that trims to nothing has whitespace only.
pub squeeze_blank : (s : Text) → is_empty (trim s) ≡ true → squeeze s ≡ []
unfolding trim
squeeze_blank s h =
    sym (squeeze-trim_end (trim_start s) ∙ squeeze-trim_start s)
    ∙ ap squeeze (is_empty_nil (trim_end (trim_start s)) h)

pub is_whitespace-newline : is_whitespace b'\n' ≡ true
unfolding is_whitespace ℕ_discrete
is_whitespace-newline = refl

is_whitespace-return : is_whitespace b'\r' ≡ true
unfolding is_whitespace ℕ_discrete
is_whitespace-return = refl

squeeze-strip_suffix :
    (x : ℕ) (s t : Text)
    → is_whitespace x ≡ true
    → strip_suffix x s ≡ some t
    → squeeze t ≡ squeeze s
unfolding strip_suffix
squeeze-strip_suffix x [] t w h = cc
squeeze-strip_suffix x (c ∷ []) t w h = ground arith
squeeze-strip_suffix x (c ∷ d ∷ s) t w h = elim (Option-cases (strip_suffix x (d ∷ s))) [
  | inl e ↦ ground (arith, e)
  | inr (u, e) ↦ ground (arith, e, squeeze-strip_suffix x (d ∷ s) u w e)
]

pub squeeze-chomp : (s : Text) → squeeze (chomp s) ≡ squeeze s
unfolding chomp
squeeze-chomp s = elim (Option-cases (strip_suffix b'\n' s)) [
  | inl e ↦ ground (arith, e)
  | inr (l, e) ↦ elim (Option-cases (strip_suffix b'\r' l)) [
    | inl f ↦ ground (arith, e, f, squeeze-strip_suffix b'\n' s l is_whitespace-newline e)
    | inr (m, f) ↦ ground (
      arith,
      e,
      f,
      squeeze-strip_suffix b'\n' s l is_whitespace-newline e,
      squeeze-strip_suffix b'\r' l m is_whitespace-return f,
    )
  ]
]

flatten-push_head : (c : ℕ) (ws : List Text) → flatten (push_head c ws) ≡ c ∷ flatten ws
flatten-push_head c [] = refl
flatten-push_head c (w ∷ ws) = refl

flatten-split_inclusive : (s : Text) → flatten (split_inclusive s) ≡ s
unfolding split_inclusive
flatten-split_inclusive [] = refl
flatten-split_inclusive (c ∷ s) =
    ground (arith, flatten-split_inclusive s, flatten-push_head c (split_inclusive s))

squeeze-map-chomp : (ws : List Text) → squeeze (flatten (map chomp ws)) ≡ squeeze (flatten ws)
squeeze-map-chomp [] = refl
squeeze-map-chomp (w ∷ ws) = simp (squeeze-append, squeeze-chomp, squeeze-map-chomp ws)

-- Splitting a text into lines loses line ends only.
pub squeeze-lines : (s : Text) → squeeze (flatten (lines s)) ≡ squeeze s
unfolding lines
squeeze-lines s = squeeze-map-chomp (split_inclusive s) ∙ ap squeeze (flatten-split_inclusive s)

trim_end_squeezed : (s : Text) → squeeze s ≡ [] → trim_end s ≡ []
unfolding trim_end
trim_end_squeezed [] h = refl
trim_end_squeezed (c ∷ s) h = ground (arith, trim_end_squeezed s)

-- A text of whitespace only trims to nothing.
pub trim_squeezed : (s : Text) → squeeze s ≡ [] → trim s ≡ []
unfolding trim
trim_squeezed s h = trim_end_squeezed (trim_start s) (squeeze-trim_start s ∙ h)

-- A text ends with a character when it is that character after something.
pub ends_with_char-append : (s : Text) (x : ℕ) → ends_with_char (s ++ x ∷ []) x ≡ true
unfolding ends_with_char
ends_with_char-append [] x = ground arith
ends_with_char-append (c ∷ []) x = ground arith
ends_with_char-append (c ∷ d ∷ s) x = ends_with_char-append (d ∷ s) x

pub ends_with_char-eq-true :
    (s : Text) (x : ℕ) → ends_with_char s x ≡ true → (init : Text) × (s ≡ init ++ x ∷ [])
unfolding ends_with_char
ends_with_char-eq-true [] x h = absurd (ground arith)
ends_with_char-eq-true (c ∷ []) x h = ([], ground arith)
ends_with_char-eq-true (c ∷ d ∷ s) x h =
    let (init, e) = ends_with_char-eq-true (d ∷ s) x h in (c ∷ init, ap (λ t. c ∷ t) e)

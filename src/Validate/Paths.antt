-- ===== src/Validate/Paths.antt =====
-- Which paths `validate_path` accepts.
use md_manager.Base.{
  ℕ, ◌≤◌, true, false, List, [], ◌∷◌, ◌++◌, All, all, drop, ◌==◌, bytes_eq, nat_eq, ◌≡◌, ◌≢◌, ◌↔◌,
  refl, ap, ◌∙◌, arith, Bool-cases, inl, inr,
}
use md_manager.Fault.{Result-cases, ok}
use md_manager.Text.{
  Text, lit, len, is_empty, starts_with, ends_with_char, contains, split, push_head, join,
}
use md_manager.Validate.{validate_path, check_segments, check_segment, is_path_char}

-- A segment: not empty, neither `.` nor `..`, and of the allowed characters.
pub record IsSegment (seg : Text) : Type 0 where
  pub not_empty : seg ≢ []
  pub not_dot : seg ≢ lit "."
  pub not_dots : seg ≢ lit ".."
  pub allowed : all is_path_char seg ≡ true

check_segment_iff : (seg : Text) → (check_segment seg ≡ ok tt) ↔ IsSegment seg
unfolding check_segment
check_segment_iff seg = (
  λ h. record {
    not_empty = λ e. ground arith;
    not_dot = λ e. ground arith;
    not_dots = λ e. ground arith;
    allowed = ground arith;
  },
  λ h. ground arith,
)

check_segments_iff : (segs : List Text) → (check_segments segs ≡ ok tt) ↔ All IsSegment segs
unfolding check_segments
check_segments_iff [] = (λ h. tt, λ h. refl)
check_segments_iff (seg ∷ segs) =
    let one = check_segment_iff seg in
    let rest = check_segments_iff segs in
    elim (Result-cases (check_segment seg)) [
      | inl (tt, e) ↦
          (λ h. (one.0 e, rest.0 (ground arith)), λ (a, b). (let w = rest.1 b in ground arith))
      | inr (x, e) ↦
          (λ h. absurd (ground arith), λ (a, b). (let w = one.1 a in absurd (ground arith)))
    ]

split-cons : (x : ℕ) (s : Text) → split x s ≢ []
unfolding split
split-cons x [] = λ e. ground arith
split-cons x (c ∷ cs) = (let rest = split-cons x cs in λ e. ground arith)

join-push_head : (sep : Text) (c : ℕ) (ws : List Text) → join sep (push_head c ws) ≡ c ∷ join sep ws
unfolding join
join-push_head sep c [] = refl
join-push_head sep c (w ∷ []) = refl
join-push_head sep c (w ∷ v ∷ ws) = refl

join-empty : (sep : Text) (ws : List Text) → ws ≢ [] → join sep ([] ∷ ws) ≡ sep ++ join sep ws
unfolding join
join-empty sep [] h = absurd (h refl)
join-empty sep (w ∷ ws) h = refl

-- The segments, joined again, are the path.
join-split : (s : Text) → join (lit "/") (split b'/' s) ≡ s
unfolding split join
join-split [] = refl
join-split (c ∷ cs) = elim (Bool-cases (c == b'/')) [
  | inl e ↦ rw e (
      join-empty (lit "/") (split b'/' cs) (split-cons b'/' cs)
      ∙ (let w = join-split cs in ground arith))
  | inr e ↦ rw e (join-push_head (lit "/") c (split b'/' cs) ∙ ap (λ t. c ∷ t) (join-split cs))
]

abbrev Full : List Text → Type 0
Full = All (λ w. w ≢ [])

Full-drop : (ws : List Text) → Full ws → Full (drop 1 ws)
Full-drop [] h = tt
Full-drop (w ∷ ws) (a, h) = h

drop-push_head : (c : ℕ) (ws : List Text) → drop 1 (push_head c ws) ≡ drop 1 ws
drop-push_head c [] = refl
drop-push_head c (w ∷ ws) = refl

-- The pieces after the first stay full when a character goes from the front.
tail-Full : (x c : ℕ) (cs : List ℕ) → Full (drop 1 (split x (c ∷ cs))) → Full (drop 1 (split x cs))
unfolding split
tail-Full x c cs h = elim (Bool-cases (c == x)) [
  | inl e ↦ Full-drop (split x cs) (rw e at h)
  | inr e ↦ rw (← drop-push_head c (split x cs)) (rw e at h)
]

starts_with-Full : (x : ℕ) (s : Text) → Full (split x s) → starts_with s (x ∷ []) ≡ false
unfolding split starts_with
starts_with-Full x [] h = refl
starts_with-Full x (c ∷ cs) h = elim (Bool-cases (c == x)) [
  | inl e ↦ absurd ((rw e at h).0 refl)
  | inr e ↦ rw e refl
]

ends_with_char-Full : (x : ℕ) (s : Text) → Full (drop 1 (split x s)) → ends_with_char s x ≡ false
unfolding split ends_with_char
ends_with_char-Full x [] h = refl
ends_with_char-Full x (c ∷ []) h = elim (Bool-cases (c == x)) [
  | inl e ↦ absurd ((rw e at h).0 refl)
  | inr e ↦ e
]
ends_with_char-Full x (c ∷ d ∷ cs) h = ends_with_char-Full x (d ∷ cs) (tail-Full x c (d ∷ cs) h)

contains-Full : (x : ℕ) (s : Text) → Full (drop 1 (split x s)) → contains s (x ∷ x ∷ []) ≡ false
unfolding split contains starts_with
contains-Full x [] h = refl
contains-Full x (c ∷ cs) h =
    let rest = contains-Full x cs (tail-Full x c cs h) in
    elim (Bool-cases (c == x)) [
      | inl e ↦ rw (e, starts_with-Full x cs (rw e at h), rest) refl
      | inr e ↦ rw (e, rest) refl
    ]

Full-segments : (segs : List Text) → All IsSegment segs → Full segs
Full-segments [] h = tt
Full-segments (seg ∷ segs) (a, h) = (a.not_empty, Full-segments segs h)

not_empty_lem : (path : Text) → Full (split b'/' path) → is_empty path ≡ false
unfolding split
not_empty_lem [] h = absurd (h.0 refl)
not_empty_lem (c ∷ cs) h = refl

-- The separator is a slash nowhere but between two full segments.
slashes_lem :
    (path : Text)
    → All IsSegment (split b'/' path)
    → (starts_with path (lit "/") ≡ false)
      × (ends_with_char path b'/' ≡ false)
      × (contains path (lit "//") ≡ false)
      × (is_empty path ≡ false)
unfolding split
slashes_lem path h =
    let full = Full-segments (split b'/' path) h in
    let tail = Full-drop (split b'/' path) full in
    (
      starts_with-Full b'/' path full,
      ends_with_char-Full b'/' path tail,
      contains-Full b'/' path tail,
      not_empty_lem path full,
    )

-- A path is accepted exactly when it has at most 512 bytes and each piece between slashes is a
-- segment: not empty, neither `.` nor `..`, and of lower-case letters, digits, `.`, `_` and `-`. The
-- pieces, joined by slashes, are the path.
pub validate_path_iff :
    (path : Text)
    → ((validate_path path ≡ ok tt) ↔ ((len path ≤ 512) × All IsSegment (split b'/' path)))
      × (join (lit "/") (split b'/' path) ≡ path)
unfolding validate_path
validate_path_iff path =
    let segs = check_segments_iff (split b'/' path) in
    (
      (
        λ h. (ground arith, segs.0 (ground arith)),
        λ (size, h). (let (a, b, c, d) = slashes_lem path h in let w = segs.1 h in ground arith),
      ),
      join-split path,
    )

-- ===== src/Validate.antt =====
-- crates/core/src/validate.rs: input validation. Sizes (`i64` and `usize`) are natural numbers.
pub mod Paths
use md_manager.Base.{
  ℕ, zero, suc, ◌/◌, ◌%◌, String, ◌<>◌, Bool, not, ◌&&◌, ◌||◌, List, [], ◌∷◌, all, ltb, leb, ◌==◌,
  nat_eq, bytes_eq, if◌then◌else◌,
}
use md_manager.Fault.{invalid, Result, ok, ◌>>◌, guard}
use md_manager.Text.{Text, lit, len, is_empty, trim, starts_with, ends_with_char, contains, split}

unfoldable pub is_ascii_lowercase : ℕ → Bool
is_ascii_lowercase c = leb b'a' c && leb c b'z'

unfoldable pub is_ascii_digit : ℕ → Bool
is_ascii_digit c = leb b'0' c && leb c b'9'

-- The closure of `validate_slug`.
unfoldable pub is_slug_char : ℕ → Bool
unfolding is_ascii_lowercase is_ascii_digit
is_slug_char c = is_ascii_lowercase c || is_ascii_digit c || c == b'-'

unfoldable pub validate_slug : Text → Result (Unit {0})
validate_slug slug = do
  guard (leb 1 (len slug) && leb (len slug) 63) (invalid "slug must be 1–63 characters")
  guard (not (starts_with slug (lit "-") || ends_with_char slug b'-'))
      (invalid "slug must not start or end with '-'")
  guard (all is_slug_char slug) (invalid "slug may contain only lowercase letters, digits, and '-'")

-- The closure of `validate_path`.
unfoldable pub is_path_char : ℕ → Bool
unfolding is_ascii_lowercase is_ascii_digit
is_path_char c = is_ascii_lowercase c || is_ascii_digit c || (c == b'.' || c == b'_' || c == b'-')

unfoldable pub check_segment : Text → Result (Unit {0})
check_segment seg = do
  guard (not (is_empty seg || seg == lit "." || seg == lit ".."))
      (invalid "path segments must be non-empty and not '.'/'..'")
  guard (all is_path_char seg) (invalid "path segments may contain only [a-z0-9._-]")

-- The loop over the segments.
unfoldable pub check_segments : List Text → Result (Unit {0})
check_segments [] = ok tt
check_segments (seg ∷ segs) = do check_segment seg; check_segments segs

unfoldable pub validate_path : Text → Result (Unit {0})
validate_path path = do
  guard (not (is_empty path || ltb 512 (len path))) (invalid "path must be 1–512 characters")
  guard (not (starts_with path (lit "/") || ends_with_char path b'/' || contains path (lit "//")))
      (invalid "path must not start/end with '/' or contain '//'")
  check_segments (split b'/' path)

unfoldable pub validate_title : Text → Result (Unit {0})
validate_title title =
    let t = trim title in
    guard (not (is_empty t || ltb 512 (len t))) (invalid "title must be 1–512 characters")

unfoldable pub digit : ℕ → String
digit d =
    if d == 0
    then "0"
    else if d == 1
    then "1"
    else if d == 2
    then "2"
    else if d == 3
    then "3"
    else if d == 4
    then "4"
    else if d == 5
    then "5"
    else if d == 6
    then "6"
    else if d == 7
    then "7"
    else if d == 8
    then "8"
    else "9"

-- The decimal digits of a number, as `format!` writes them; twenty digits hold every `i64`.
unfoldable pub digits : ℕ → ℕ → String
unfolding digit
digits zero n = ""
digits (suc k) n =
    let rest = digits k (n / 10) in
    let last = digit (n % 10) in if ltb n 10 then last else rest <> last

unfoldable pub decimal : ℕ → String
unfolding digits
decimal n = digits 20 n

unfoldable pub validate_content_size : Text → ℕ → Result (Unit {0})
validate_content_size content max_bytes =
    guard (not (ltb max_bytes (len content)))
      (invalid ("document exceeds maximum size of " <> decimal max_bytes <> " bytes"))

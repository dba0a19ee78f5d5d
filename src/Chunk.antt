-- ===== src/Chunk.antt =====
-- crates/core/src/chunk.rs: header-aware chunking of a markdown document.
-- `Chunker` holds the variables of the loop over the lines. The heading path is a stack, its top
-- (the `Vec`'s last element) first; chunk and heading numbers are natural numbers.
pub mod Preserves
pub mod Numbering
use mathlib.Core.List.{reverse}
use md_manager.Base.{
  ℕ, zero, suc, ◌+◌, Bool, true, false, not, ◌&&◌, ◌||◌, Option, none, some, List, [], ◌∷◌, ◌++◌,
  map, length, drop, ltb, leb, ◌==◌, nat_eq, if◌then◌else◌, ◌≡◌, inl, inr, Bool-cases, Option-cases,
}
use md_manager.Text.{Text, lit, len, is_empty, trim_start, trim_end, trim, starts_with, lines, join}

pub record Chunk : Type 0 where
  pub index : ℕ
  pub heading_path : Text
  pub content : Text

pub record Chunker : Type 0 where
  pub chunks : List Chunk
  pub path : List (ℕ × Text)
  pub buf : Text
  pub in_fence : Bool
  pub next_index : ℕ

abbrev pub default_max_chars : ℕ
default_max_chars = 1500

abbrev heading_text : ℕ × Text → Text
heading_text (level, text) = text

unfoldable pub breadcrumb : List (ℕ × Text) → Text
unfolding join
breadcrumb path = join (lit " > ") (map heading_text (reverse path))

-- `chars().take_while(|c| *c == '#').count()`
unfoldable pub count_hashes : Text → ℕ
count_hashes [] = 0
count_hashes (c ∷ cs) = let rest = count_hashes cs in if c == b'#' then suc rest else 0

unfoldable pub parse_heading : Text → Option (ℕ × Text)
parse_heading line =
    let t = trim_start line in
    let hashes = count_hashes t in
    if hashes == 0 || ltb 6 hashes
    then none
    else let rest = drop hashes t in
      if not (starts_with rest (lit " ")) then none else some (hashes, trim rest)

-- The closure `flush`.
unfoldable pub flush : Chunker → Chunker
flush s = if is_empty (trim s.buf) then record s { buf = [] } else record s {
  chunks =
      s.chunks
      ++ record { index = s.next_index; heading_path = breadcrumb s.path; content = trim_end s.buf }
        ∷ [];
  buf = [];
  next_index = s.next_index + 1;
}

-- `while path.last().map(|(l, _)| *l >= level).unwrap_or(false) { path.pop(); }`
unfoldable pub pop_deeper : ℕ → List (ℕ × Text) → List (ℕ × Text)
pop_deeper level [] = []
pop_deeper level ((l, t) ∷ path) =
    let rest = pop_deeper level path in if leb level l then rest else (l, t) ∷ path

-- `buf.push_str(line); buf.push('\n');`
unfoldable pub push_line : Text → Chunker → Chunker
push_line line s = record s { buf = s.buf ++ (line ++ b'\n' ∷ []) }

unfoldable pub is_fence : Text → Bool
is_fence line =
    let trimmed = trim_start line in
    starts_with trimmed (lit "```") || starts_with trimmed (lit "~~~")

-- The section of a heading line: close the previous one, and put the heading on the path.
unfoldable pub open_section : Text → ℕ → Text → Chunker → Chunker
open_section line level text s =
    let t = flush s in push_line line (record t { path = (level, text) ∷ pop_deeper level t.path })

-- A line that is no heading: a large section is split, at a blank line outside a fence.
unfoldable pub plain_line : ℕ → Text → Chunker → Chunker
plain_line max_chars line s =
    let t = push_line line s in
    if not t.in_fence && (is_empty (trim line) && leb max_chars (len t.buf)) then flush t else t

-- The body of the loop, with its three `continue`s as branches.
unfoldable pub step_line : ℕ → Chunker → Text → Chunker
step_line max_chars s line =
    if is_fence line
    then push_line line (record s { in_fence = not s.in_fence })
    else if s.in_fence
    then plain_line max_chars line s
    else elim (parse_heading line) [
      | none ↦ plain_line max_chars line s
      | some (level, text) ↦ open_section line level text s
    ]

unfoldable pub run_lines : ℕ → Chunker → List Text → Chunker
run_lines max_chars s [] = s
run_lines max_chars s (line ∷ rest) = run_lines max_chars (step_line max_chars s line) rest

abbrev pub start : Chunker
start = record { chunks = []; path = []; buf = []; in_fence = false; next_index = 0 }

unfoldable pub chunk_markdown_with : Text → ℕ → List Chunk
chunk_markdown_with content max_chars = (flush (run_lines max_chars start (lines content))).chunks

unfoldable pub chunk_markdown : Text → List Chunk
unfolding chunk_markdown_with
chunk_markdown content = chunk_markdown_with content default_max_chars

-- What a line does to the state, in three cases: a fence, a line of text, a heading outside a fence.
step_line_cases {ℓ} :
    (P : Chunker → Type ℓ) (max_chars : ℕ) (s : Chunker) (line : Text)
    → P (push_line line (record s { in_fence = not s.in_fence }))
    → P (plain_line max_chars line s)
    → ((level : ℕ) (text : Text)
        → (s.in_fence ≡ false) × (parse_heading line ≡ some (level, text))
        → P (open_section line level text s))
    → P (step_line max_chars s line)
unfolding step_line
step_line_cases P m s line fence plain heading = elim (Bool-cases (is_fence line)) [
  | inl e ↦ simp e fence
  | inr e ↦ elim (Bool-cases s.in_fence) [
    | inl inside ↦ simp (e, inside) plain
    | inr outside ↦ elim (Option-cases (parse_heading line)) [
      | inl text ↦ simp (e, outside, text) plain
      | inr ((level, t), h) ↦ simp (e, outside, h) (heading level t (outside, h))
    ]
  ]
]

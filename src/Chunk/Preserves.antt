-- ===== src/Chunk/Preserves.antt =====
-- No character but whitespace is lost, doubled or moved by chunking.
use mathlib.Core.List.{append-nil, append_assoc}
use md_manager.Base.{
  ℕ, not, List, [], ◌∷◌, ◌++◌, map, ◌≡◌, refl, sym, ap, ◌∙◌, arith, nat_eq, Bool-cases, inl, inr,
}
use md_manager.Text.{Text, is_empty, trim, lines, flatten}
use md_manager.Text.Laws.{
  squeeze, squeeze-append, squeeze-trim_end, squeeze_blank, squeeze-lines, is_whitespace-newline,
}
use md_manager.Chunk.{
  Chunk, Chunker, flush, push_line, open_section, plain_line, step_line, run_lines, start,
  chunk_markdown_with, pop_deeper, step_line_cases,
}

abbrev chunk_text : Chunk → Text
chunk_text c = c.content

-- The texts of the chunks, one after another.
abbrev pub text_of_chunks : List Chunk → Text
text_of_chunks cs = flatten (map chunk_text cs)

-- What the loop has taken in so far, up to whitespace.
abbrev read_so_far : Chunker → Text
read_so_far s = squeeze (text_of_chunks s.chunks) ++ squeeze s.buf

squeeze-text_of_chunks-append :
    (cs ds : List Chunk)
    → squeeze (text_of_chunks (cs ++ ds))
      ≡ squeeze (text_of_chunks cs) ++ squeeze (text_of_chunks ds)
squeeze-text_of_chunks-append [] ds = refl
squeeze-text_of_chunks-append (c ∷ cs) ds =
    simp (squeeze-append, squeeze-text_of_chunks-append cs ds, append_assoc)

flush_empties : (s : Chunker) → (flush s).buf ≡ []
unfolding flush
flush_empties s = ground arith

read_so_far-flush : (s : Chunker) → read_so_far (flush s) ≡ read_so_far s
unfolding flush
read_so_far-flush s = elim (Bool-cases (is_empty (trim s.buf))) [
  | inl e ↦ rw e (rw (squeeze_blank s.buf e) refl)
  | inr e ↦ rw e (simp (squeeze-text_of_chunks-append, append-nil, squeeze-trim_end))
]

read_so_far-push_line :
    (line : Text) (s : Chunker) → read_so_far (push_line line s) ≡ read_so_far s ++ squeeze line
unfolding push_line
read_so_far-push_line line s =
    simp (squeeze-append, append_assoc, is_whitespace-newline, append-nil)

read_so_far-plain_line :
    (m : ℕ) (line : Text) (s : Chunker)
    → read_so_far (plain_line m line s) ≡ read_so_far s ++ squeeze line
unfolding plain_line
read_so_far-plain_line m line s =
    ground (arith, read_so_far-push_line line s, read_so_far-flush (push_line line s))

read_so_far-open_section :
    (line : Text) (level : ℕ) (text : Text) (s : Chunker)
    → read_so_far (open_section line level text s) ≡ read_so_far s ++ squeeze line
unfolding open_section
read_so_far-open_section line level text s =
    read_so_far-push_line line
      (record (flush s) { path = (level, text) ∷ pop_deeper level (flush s).path })
    ∙ ap (λ t. t ++ squeeze line) (read_so_far-flush s)

read_so_far-step_line :
    (m : ℕ) (s : Chunker) (line : Text)
    → read_so_far (step_line m s line) ≡ read_so_far s ++ squeeze line
read_so_far-step_line m s line =
    step_line_cases (λ t. read_so_far t ≡ read_so_far s ++ squeeze line) m s line
      (read_so_far-push_line line (record s { in_fence = not s.in_fence }))
      (read_so_far-plain_line m line s) (λ level text _. read_so_far-open_section line level text s)

read_so_far-run_lines :
    (m : ℕ) (s : Chunker) (ls : List Text)
    → read_so_far (run_lines m s ls) ≡ read_so_far s ++ squeeze (flatten ls)
unfolding run_lines
read_so_far-run_lines m s [] = sym (append-nil _)
read_so_far-run_lines m s (l ∷ ls) =
    read_so_far-run_lines m (step_line m s l) ls
    ∙ simp (read_so_far-step_line m s l, append_assoc, squeeze-append)

-- The chunks of a document, put together, are the document up to whitespace: whatever the size
-- limit, every other character is in exactly one chunk, in the order of the document.
pub chunk_markdown_with_preserves :
    (content : Text) (max_chars : ℕ)
    → squeeze (text_of_chunks (chunk_markdown_with content max_chars)) ≡ squeeze content
unfolding chunk_markdown_with
chunk_markdown_with_preserves content m =
    let last = run_lines m start (lines content) in
    sym (append-nil _)
    ∙ ap (λ t. squeeze (text_of_chunks (flush last).chunks) ++ squeeze t) (sym (flush_empties last))
    ∙ read_so_far-flush last
    ∙ read_so_far-run_lines m start (lines content)
    ∙ squeeze-lines content

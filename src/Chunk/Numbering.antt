-- ===== src/Chunk/Numbering.antt =====
-- The shape of the chunks and of the heading path, by an invariant of the loop.
use md_manager.Base.{
  ℕ, suc, ◌+◌, ◌≤◌, ◌<◌, false, some, List, [], ◌∷◌, ◌++◌, ◌≡◌, ◌≢◌, refl, sym, ◌∙◌, arith,
  Bool-cases, inl, inr, length, All, All-append, length-append,
}
use md_manager.Text.{Text, is_empty, trim, trim_end, lines}
use md_manager.Text.Laws.{squeeze, squeeze-trim_end, trim_squeezed, trim_end_idem}
use md_manager.Chunk.{
  Chunk, Chunker, flush, push_line, open_section, plain_line, step_line, run_lines, start,
  parse_heading, chunk_markdown_with, pop_deeper, step_line_cases,
}

-- The chunks are numbered one after another from `n`.
abbrev pub Numbered : ℕ → List Chunk → Type 0
Numbered n [] = Unit
Numbered n (c ∷ cs) = (c.index ≡ n) × Numbered (suc n) cs

-- The content ends in no whitespace, and is not whitespace only.
abbrev pub IsTight : Chunk → Type 0
IsTight c = (trim_end c.content ≡ c.content) × (squeeze c.content ≢ [])

-- Levels fall from the top of the path to its bottom, and lie between 1 and 6.
abbrev pub Nested : ℕ → List (ℕ × Text) → Type 0
Nested bound [] = Unit
Nested bound ((level, t) ∷ path) = (level < bound) × (1 ≤ level) × Nested level path

pub record Inv (s : Chunker) : Type 0 where
  pub numbered : Numbered 0 s.chunks
  pub counted : s.next_index ≡ length s.chunks
  pub tight : All IsTight s.chunks
  pub nested : Nested 7 s.path

Numbered-append :
    (n : ℕ) (cs : List Chunk) (d : Chunk)
    → Numbered n cs
    → d.index ≡ n + length cs
    → Numbered n (cs ++ d ∷ [])
Numbered-append n [] d h e = (omega arith, tt)
Numbered-append n (c ∷ cs) d (p, h) e = (p, Numbered-append (suc n) cs d h (omega arith))

Nested-mono : (m n : ℕ) (path : List (ℕ × Text)) → m ≤ n → Nested m path → Nested n path
Nested-mono m n [] h v = tt
Nested-mono m n ((level, t) ∷ path) h (a, b, v) = (omega arith, b, v)

Nested-pop_deeper :
    (bound level : ℕ) (path : List (ℕ × Text))
    → Nested bound path
    → Nested level (pop_deeper level path)
unfolding pop_deeper
Nested-pop_deeper bound level [] v = tt
Nested-pop_deeper bound level ((l, t) ∷ path) (a, b, v) =
    ground (arith, Nested-pop_deeper l level path v)

trim_end-IsTight :
    (buf : Text)
    → is_empty (trim buf) ≡ false
    → (trim_end (trim_end buf) ≡ trim_end buf) × (squeeze (trim_end buf) ≢ [])
trim_end-IsTight buf h =
    (trim_end_idem buf, λ e. ground (arith, trim_squeezed buf (sym (squeeze-trim_end buf) ∙ e)))

flush-Inv : (s : Chunker) → Inv s → Inv (flush s)
unfolding flush
flush-Inv s v = elim (Bool-cases (is_empty (trim s.buf))) [
  | inl blank ↦
      simp blank
        (record { numbered = v.numbered; counted = v.counted; tight = v.tight; nested = v.nested })
  | inr full ↦ simp full (record {
    numbered = Numbered-append 0 s.chunks _ v.numbered (omega (arith, v.counted));
    counted = omega (arith, v.counted, length-append s.chunks);
    tight = All-append IsTight s.chunks _ v.tight (trim_end-IsTight s.buf full, tt);
    nested = v.nested;
  })
]

push_line-Inv : (line : Text) (s : Chunker) → Inv s → Inv (push_line line s)
unfolding push_line
push_line-Inv line s v = record {
  numbered = v.numbered;
  counted = v.counted;
  tight = v.tight;
  nested = v.nested;
}

plain_line-Inv : (m : ℕ) (line : Text) (s : Chunker) → Inv s → Inv (plain_line m line s)
unfolding plain_line
plain_line-Inv m line s v = ground (arith, push_line-Inv line s v, flush-Inv (push_line line s))

parse_heading-level :
    (line : Text) (level : ℕ) (t : Text)
    → parse_heading line ≡ some (level, t)
    → (1 ≤ level) × (level ≤ 6)
unfolding parse_heading
parse_heading-level line level t h = ground arith

open_section-Inv :
    (line : Text) (level : ℕ) (t : Text) (s : Chunker)
    → (1 ≤ level) × (level ≤ 6)
    → Inv s
    → Inv (open_section line level t s)
unfolding open_section
open_section-Inv line level t s h v =
    let w = flush-Inv s v in
    push_line-Inv line _ (record {
      numbered = w.numbered;
      counted = w.counted;
      tight = w.tight;
      nested = (omega arith, h.0, Nested-pop_deeper 7 level (flush s).path w.nested);
    })

step_line-Inv : (m : ℕ) (s : Chunker) (line : Text) → Inv s → Inv (step_line m s line)
step_line-Inv m s line v =
    step_line_cases Inv m s line
      (push_line-Inv line _
        (record { numbered = v.numbered; counted = v.counted; tight = v.tight; nested = v.nested }))
      (plain_line-Inv m line s v)
      (λ level t h. open_section-Inv line level t s (parse_heading-level line level t h.1) v)

-- After any lines, the chunks made so far are numbered from 0 and tight, `next_index` counts
-- them, and the levels of the heading path fall from its top, between 6 and 1.
pub run_lines-Inv : (m : ℕ) (s : Chunker) (ls : List Text) → Inv s → Inv (run_lines m s ls)
unfolding run_lines
run_lines-Inv m s [] v = v
run_lines-Inv m s (l ∷ ls) v = run_lines-Inv m (step_line m s l) ls (step_line-Inv m s l v)

pub start-Inv : Inv start
start-Inv = record { numbered = tt; counted = refl; tight = tt; nested = tt }

-- The chunks of a document are numbered 0, 1, 2 and so on, and each has a content that ends in no
-- whitespace and is not whitespace only.
pub chunk_markdown_with_shape :
    (content : Text) (max_chars : ℕ)
    → Numbered 0 (chunk_markdown_with content max_chars)
      × All IsTight (chunk_markdown_with content max_chars)
unfolding chunk_markdown_with
chunk_markdown_with_shape content m =
    let v = flush-Inv _ (run_lines-Inv m start (lines content) start-Inv) in (v.numbered, v.tight)

-- ===== src/Text.antt =====
-- The operations of Rust's `str` that the source uses. A text is the list of its `char`s, as code
-- points; `len` counts the bytes of their UTF-8 encoding, as `str::len` does.
pub mod Laws
use Prim.Native.Char.{code}
use md_manager.Base.{
  ℕ, zero, suc, ◌+◌, String, Bool, true, false, ◌&&◌, ◌||◌, Option, none, some, List, [], ◌∷◌, ◌++◌,
  map, ltb, leb, ◌==◌, nat_eq, if◌then◌else◌,
}

abbrev pub Text : Type 0
Text = List ℕ

-- A literal of the source.
abbrev pub lit : String → Text
lit String.[] = []
lit (String.◌∷◌ c s) = code c ∷ lit s

-- `char::len_utf8`
unfoldable pub len_utf8 : ℕ → ℕ
len_utf8 c = if ltb c 0x80 then 1 else if ltb c 0x800 then 2 else if ltb c 0x10000 then 3 else 4

unfoldable pub len : Text → ℕ
unfolding len_utf8
len [] = 0
len (c ∷ cs) = len_utf8 c + len cs

-- `char::is_whitespace`: the Unicode property White_Space.
unfoldable pub is_whitespace : ℕ → Bool
is_whitespace c =
    (leb 9 c && leb c 13)
    || c == 0x20
    || c == 0x85
    || c == 0xa0
    || c == 0x1680
    || (leb 0x2000 c && leb c 0x200a)
    || c == 0x2028
    || c == 0x2029
    || c == 0x202f
    || c == 0x205f
    || c == 0x3000

abbrev pub is_empty {ℓ} : {A : Type ℓ} → List A → Bool
is_empty [] = true
is_empty (c ∷ cs) = false

unfoldable pub trim_start : Text → Text
unfolding is_whitespace
trim_start [] = []
trim_start (c ∷ cs) = let rest = trim_start cs in if is_whitespace c then rest else c ∷ cs

unfoldable pub trim_end : Text → Text
unfolding is_whitespace
trim_end [] = []
trim_end (c ∷ cs) =
    let rest = trim_end cs in if is_empty rest && is_whitespace c then [] else c ∷ rest

unfoldable pub trim : Text → Text
unfolding trim_start trim_end
trim s = trim_end (trim_start s)

unfoldable pub starts_with : Text → Text → Bool
starts_with s [] = true
starts_with [] (p ∷ ps) = false
starts_with (c ∷ cs) (p ∷ ps) = c == p && starts_with cs ps

unfoldable pub ends_with_char : Text → ℕ → Bool
ends_with_char [] x = false
ends_with_char (c ∷ []) x = c == x
ends_with_char (c ∷ d ∷ cs) x = ends_with_char (d ∷ cs) x

unfoldable pub contains_char : Text → ℕ → Bool
contains_char [] x = false
contains_char (c ∷ cs) x = c == x || contains_char cs x

-- `str::contains` of a text
unfoldable pub contains : Text → Text → Bool
unfolding starts_with
contains [] p = starts_with [] p
contains (c ∷ cs) p = starts_with (c ∷ cs) p || contains cs p

abbrev pub push_head : ℕ → List Text → List Text
push_head c [] = (c ∷ []) ∷ []
push_head c (w ∷ ws) = (c ∷ w) ∷ ws

-- `str::split` at a `char`
unfoldable pub split : ℕ → Text → List Text
split x [] = [] ∷ []
split x (c ∷ cs) = if c == x then [] ∷ split x cs else push_head c (split x cs)

-- `str::split_inclusive('\n')`: each piece keeps its line feed, and the last may lack one.
unfoldable pub split_inclusive : Text → List Text
split_inclusive [] = []
split_inclusive (c ∷ cs) =
    if c == b'\n' then (c ∷ []) ∷ split_inclusive cs else push_head c (split_inclusive cs)

-- `str::strip_suffix` of a `char`
unfoldable pub strip_suffix : ℕ → Text → Option Text
strip_suffix x [] = none
strip_suffix x (c ∷ []) = if c == x then some [] else none
strip_suffix x (c ∷ d ∷ cs) = elim (strip_suffix x (d ∷ cs)) [ none ↦ none | some t ↦ some (c ∷ t) ]

-- One step of `str::lines`: the line feed goes, and a carriage return right before it.
unfoldable pub chomp : Text → Text
unfolding strip_suffix
chomp line = elim (strip_suffix b'\n' line) [
  | none ↦ line
  | some l ↦ elim (strip_suffix b'\r' l) [ none ↦ l | some m ↦ m ]
]

unfoldable pub lines : Text → List Text
unfolding split_inclusive chomp
lines s = map chomp (split_inclusive s)

-- `[Text]::join`
unfoldable pub join : Text → List Text → Text
join sep [] = []
join sep (w ∷ []) = w
join sep (w ∷ v ∷ ws) = w ++ (sep ++ join sep (v ∷ ws))

abbrev pub flatten : List Text → Text
flatten [] = []
flatten (t ∷ ts) = t ++ flatten ts

-- ===== src/Wire/Text.antt =====
-- Python's operations on bytes and text that shared/wire.py uses. A byte, or a character of a line
-- decoded as Latin-1, is its number.
use Prim.Native.Char.{code}
use Prim.Native.String.{String}
use cat_automation.Prelude.{
  ℕ, ◌+◌, Bool, true, false, Option, none, some, List, [], ◌∷◌, ◌==◌, ◌&&◌, ◌||◌, not, leb,
  if◌then◌else◌,
}

abbrev pub Bytes : Type 0
Bytes = List ℕ

abbrev pub codes : String → Bytes
codes String.[] = []
codes (String.◌∷◌ c s) = code c ∷ codes s

abbrev pub bytes_eq : Bytes → Bytes → Bool
bytes_eq [] [] = true
bytes_eq (a ∷ s) (b ∷ t) = a == b && bytes_eq s t
bytes_eq _ _ = false

-- `_CRLF`
abbrev pub crlf : Bytes
crlf = 13 ∷ 10 ∷ []

-- `c` goes before the first of the pieces.
unfoldable pub push_code : ℕ → List Bytes → List Bytes
push_code c [] = (c ∷ []) ∷ []
push_code c (piece ∷ pieces) = (c ∷ piece) ∷ pieces

-- `block.split(_CRLF)`, after a carriage return that is not yet placed where `cr` is true.
unfoldable pub split_crlf : Bool → Bytes → List Bytes
unfolding push_code
split_crlf cr [] = (if cr then 13 ∷ [] else []) ∷ []
split_crlf cr (c ∷ s) =
    let rest = split_crlf (c == 13) s in
    let placed = if c == 13 then rest else push_code c rest in
    if cr then (if c == 10 then [] ∷ rest else push_code 13 placed) else placed

-- `raw.split(sep)` for a separator of one character.
unfoldable pub split_at : ℕ → Bytes → List Bytes
unfolding push_code
split_at sep [] = [] ∷ []
split_at sep (c ∷ s) = let rest = split_at sep s in if c == sep then [] ∷ rest else push_code c rest

-- `text.partition(":")` for a text that has the separator, and `none` for one that has not.
unfoldable pub partition : ℕ → Bytes → Option (Bytes × Bytes)
partition sep [] = none
partition sep (c ∷ s) =
    let rest = partition sep s in
    if c == sep
    then some ([], s)
    else elim rest [ none ↦ none | some (name, value) ↦ some (c ∷ name, value) ]

-- The characters of Latin-1 that `strip` takes off.
unfoldable pub is_space : ℕ → Bool
is_space c = leb 9 c && leb c 13 || leb 28 c && leb c 32 || c == 133 || c == 160

unfoldable pub strip_front : Bytes → Bytes
unfolding is_space
strip_front [] = []
strip_front (c ∷ s) = if is_space c then strip_front s else c ∷ s

-- `c` before a text that `strip_back` made.
unfoldable pub keep_code : ℕ → Bytes → Bytes
unfolding is_space
keep_code c [] = if is_space c then [] else c ∷ []
keep_code c (d ∷ s) = c ∷ d ∷ s

unfoldable pub strip_back : Bytes → Bytes
unfolding keep_code
strip_back [] = []
strip_back (c ∷ s) = keep_code c (strip_back s)

unfoldable pub strip : Bytes → Bytes
unfolding strip_front strip_back
strip s = strip_back (strip_front s)

unfoldable pub lower_code : ℕ → ℕ
lower_code c =
    if leb 65 c && leb c 90 || leb 192 c && leb c 222 && not (c == 215) then c + 32 else c

unfoldable pub lower : Bytes → Bytes
unfolding lower_code
lower [] = []
lower (c ∷ s) = lower_code c ∷ lower s

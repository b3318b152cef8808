-- ===== src/Wire/Lines.antt =====
-- Lines, header names and values of visible characters (shared/wire.py).
use cat_automation.Prelude.{ℕ, ◌≤◌, ◌≡◌, ◌≢◌, refl, ap, ◌∙◌, false, some, [], ◌∷◌, ◌++◌, All, arith}
use cat_automation.Wire.Text.{
  Bytes, push_code, split_crlf, split_at, partition, is_space, strip_front, strip_back, keep_code,
  strip, lower,
}
use cat_automation.Wire.Part.{Headers, add_entry, read_header}

abbrev pub IsVisible : ℕ → Type 0
IsVisible c = (33 ≤ c) × (c ≤ 126)

-- A visible character that is not `sep`.
abbrev pub IsFree : ℕ → ℕ → Type 0
IsFree sep c = (33 ≤ c) × (c ≤ 126) × (c ≢ sep)

pub split_crlf-line :
    (line s : Bytes)
    → All (λ c. 32 ≤ c) line
    → split_crlf false (line ++ 13 ∷ 10 ∷ s) ≡ line ∷ split_crlf false s
unfolding split_crlf push_code
split_crlf-line [] s a = refl
split_crlf-line (c ∷ line) s a = ground (arith, a.0, split_crlf-line line s a.1)

strip_front-eq_self : (s : Bytes) → All IsVisible s → strip_front s ≡ s
unfolding strip_front is_space
strip_front-eq_self [] a = refl
strip_front-eq_self (c ∷ s) a = ground (arith, a.0)

keep_code-eq-cons : (c : ℕ) (s : Bytes) → IsVisible c → keep_code c s ≡ c ∷ s
unfolding keep_code is_space
keep_code-eq-cons c [] h = ground (arith, h)
keep_code-eq-cons c (d ∷ s) h = refl

strip_back-eq_self : (s : Bytes) → All IsVisible s → strip_back s ≡ s
unfolding strip_back
strip_back-eq_self [] a = refl
strip_back-eq_self (c ∷ s) a = rw (strip_back-eq_self s a.1) (keep_code-eq-cons c s a.0)

pub strip-eq_self : (s : Bytes) → All IsVisible s → strip s ≡ s
unfolding strip
strip-eq_self s a = rw (strip_front-eq_self s a) (strip_back-eq_self s a)

pub strip-space : (s : Bytes) → strip (32 ∷ s) ≡ strip s
unfolding strip strip_front is_space
strip-space s = refl

pub partition-name :
    (sep : ℕ) (name value : Bytes)
    → All (IsFree sep) name
    → partition sep (name ++ sep ∷ value) ≡ some (name, value)
unfolding partition
partition-name sep [] value a = ground arith
partition-name sep (c ∷ name) value a = ground (arith, a.0, partition-name sep name value a.1)

IsFree-IsVisible : (sep : ℕ) (s : Bytes) → All (IsFree sep) s → All IsVisible s
IsFree-IsVisible sep [] a = tt
IsFree-IsVisible sep (c ∷ s) a = ((a.0.0, a.0.1), IsFree-IsVisible sep s a.1)

add_entry-visible :
    (name value : Bytes) (headers : Headers)
    → All IsVisible name
    → All IsVisible value
    → add_entry (some (name, 32 ∷ value)) headers ≡ (lower name, value) ∷ headers
unfolding add_entry
add_entry-visible name value headers n v =
    rw (strip-space value, strip-eq_self value v, strip-eq_self name n) refl

-- The entry of a header line.
pub read_header-line :
    (name value : Bytes) (headers : Headers)
    → All (IsFree 58) name
    → All IsVisible value
    → read_header (name ++ 58 ∷ 32 ∷ value) headers ≡ (lower name, value) ∷ headers
unfolding read_header
read_header-line name value headers n v =
    ap (λ entry. add_entry entry headers) (partition-name 58 name (32 ∷ value) n)
    ∙ add_entry-visible name value headers (IsFree-IsVisible 58 name n) v

pub split_at-piece :
    (sep : ℕ) (piece s : Bytes)
    → All (IsFree sep) piece
    → split_at sep (piece ++ sep ∷ s) ≡ piece ∷ split_at sep s
unfolding split_at push_code
split_at-piece sep [] s a = ground arith
split_at-piece sep (c ∷ piece) s a = ground (arith, a.0, split_at-piece sep piece s a.1)

pub split_at-last :
    (sep : ℕ) (piece : Bytes) → All (IsFree sep) piece → split_at sep piece ≡ piece ∷ []
unfolding split_at push_code
split_at-last sep [] a = refl
split_at-last sep (c ∷ piece) a = ground (arith, a.0, split_at-last sep piece a.1)

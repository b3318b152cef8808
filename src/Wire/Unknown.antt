-- ===== src/Wire/Unknown.antt =====
-- Lines that `parse_part_headers` does not read (shared/wire.py).
use cat_automation.Prelude.{
  ◌≡◌, ◌≤◌, refl, sym, ap, ◌∙◌, All-append, true, false, Option, none, some, List, [], ◌∷◌, ◌++◌,
  All, append_assoc, if◌then◌else◌,
}
use cat_automation.Wire.Text.{Bytes, bytes_eq, crlf, split_crlf, partition, strip, lower}
use cat_automation.Wire.Part.{
  header_content_length, header_frame_id, header_timestamp, header_motion, header_bbox, header_area,
  FloatText, Headers, header_get, add_entry, read_header, read_headers, require_int, require_motion,
  part_of, parse_part_headers,
}
use cat_automation.Wire.Lines.{split_crlf-line}

-- The keys that the parser asks the dict for.
abbrev pub read_keys : List Bytes
read_keys =
    lower header_frame_id
    ∷ lower header_timestamp
    ∷ lower header_content_length
    ∷ lower header_motion
    ∷ lower header_bbox
    ∷ lower header_area
    ∷ header_frame_id
    ∷ header_timestamp
    ∷ header_content_length
    ∷ []

-- The line has no colon, or its name is none of the keys.
abbrev IsUnknownEntry : List Bytes → Option (Bytes × Bytes) → Type 0
IsUnknownEntry keys none = true ≡ true
IsUnknownEntry keys (some (name, value)) =
    All (λ key. bytes_eq (lower (strip name)) key ≡ false) keys

abbrev pub IsUnknown : Bytes → Type 0
IsUnknown line = IsUnknownEntry read_keys (partition 58 line)

-- Lines with their line ends.
unfoldable pub join_lines : List Bytes → Bytes
join_lines [] = []
join_lines (line ∷ lines) = line ++ (crlf ++ join_lines lines)

-- Two dicts that answer alike for the keys.
abbrev Alike : List Bytes → Headers → Headers → Type 0
Alike keys a b = All (λ key. header_get key a ≡ header_get key b) keys

Alike-cons :
    (name value : Bytes) (a b : Headers) (keys : List Bytes)
    → Alike keys a b
    → Alike keys ((name, value) ∷ a) ((name, value) ∷ b)
unfolding header_get
Alike-cons name value a b [] h = tt
Alike-cons name value a b (key ∷ keys) h =
    (ap (λ o. if bytes_eq name key then some value else o) h.0, Alike-cons name value a b keys h.1)

Alike-unknown :
    (name value : Bytes) (a : Headers) (keys : List Bytes)
    → All (λ key. bytes_eq name key ≡ false) keys
    → Alike keys ((name, value) ∷ a) a
unfolding header_get
Alike-unknown name value a [] u = tt
Alike-unknown name value a (key ∷ keys) u = (rw u.0 refl, Alike-unknown name value a keys u.1)

Alike-refl : (a : Headers) (keys : List Bytes) → Alike keys a a
Alike-refl a [] = tt
Alike-refl a (key ∷ keys) = (refl, Alike-refl a keys)

add_entry-unknown :
    (entry : Option (Bytes × Bytes)) (a : Headers) (keys : List Bytes)
    → IsUnknownEntry keys entry
    → Alike keys (add_entry entry a) a
unfolding add_entry
add_entry-unknown none a keys u = Alike-refl a keys
add_entry-unknown (some (name, value)) a keys u =
    Alike-unknown (lower (strip name)) (strip value) a keys u

add_entry-Alike :
    (entry : Option (Bytes × Bytes)) (a b : Headers) (keys : List Bytes)
    → Alike keys a b
    → Alike keys (add_entry entry a) (add_entry entry b)
unfolding add_entry
add_entry-Alike none a b keys s = s
add_entry-Alike (some (name, value)) a b keys s =
    Alike-cons (lower (strip name)) (strip value) a b keys s

read_headers-Alike :
    (lines : List Bytes) (a b : Headers) (keys : List Bytes)
    → Alike keys a b
    → Alike keys (read_headers lines a) (read_headers lines b)
unfolding read_headers read_header
read_headers-Alike [] a b keys s = s
read_headers-Alike (line ∷ lines) a b keys s =
    read_headers-Alike lines (read_header line a) (read_header line b) keys
      (add_entry-Alike (partition 58 line) a b keys s)

-- An unknown line between other lines.
read_headers-unknown :
    (before after : List Bytes) (line : Bytes) (a : Headers)
    → IsUnknown line
    → Alike read_keys (read_headers (before ++ (line ∷ after)) a) (read_headers (before ++ after) a)
unfolding read_headers read_header
read_headers-unknown [] after line a u =
    read_headers-Alike after (read_header line a) a read_keys
      (add_entry-unknown (partition 58 line) a read_keys u)
read_headers-unknown (l ∷ before) after line a u =
    read_headers-unknown before after line (read_header l a) u

split_crlf-join_lines :
    (lines : List Bytes)
    → All (λ line. All (λ c. 32 ≤ c) line) lines
    → split_crlf false (join_lines lines) ≡ lines ++ ([] ∷ [])
unfolding join_lines split_crlf
split_crlf-join_lines [] p = refl
split_crlf-join_lines (line ∷ lines) p =
    split_crlf-line line (join_lines lines) p.0
    ∙ ap (λ rest. line ∷ rest) (split_crlf-join_lines lines p.1)

module _ (T : FloatText) where
  part_of-Alike : (a b : Headers) → Alike read_keys a b → part_of T a ≡ part_of T b
  unfolding part_of require_int require_motion
  part_of-Alike a b (k1, (k2, (k3, (k4, (k5, (k6, (k7, (k8, (k9, _))))))))) =
      rw (k1, k2, k3, k4, k5, k6, k7, k8, k9) refl

  -- In a block whose lines hold no control character (no code below 32, so no tab either): a line whose
  -- name the parser does not ask for, or a line without a colon, changes nothing, wherever it stands among
  -- the lines of the block.
  pub parse_part_headers-unknown :
      (before after : List Bytes) (line : Bytes)
      → All (λ l. All (λ c. 32 ≤ c) l) before
      → All (λ l. All (λ c. 32 ≤ c) l) after
      → All (λ c. 32 ≤ c) line
      → IsUnknown line
      → parse_part_headers T (join_lines (before ++ (line ∷ after)))
        ≡ parse_part_headers T (join_lines (before ++ after))
  unfolding parse_part_headers
  parse_part_headers-unknown before after line p q l u =
      let Printable : Bytes → Type 0 = λ t. All (λ c. 32 ≤ c) t in
      let dict : List Bytes → Headers = λ lines. read_headers lines [] in
      ap (λ lines. part_of T (dict lines))
        (split_crlf-join_lines (before ++ (line ∷ after))
            (All-append Printable before (line ∷ after) p (l, q))
          ∙ append_assoc before (line ∷ after) ([] ∷ []))
      ∙ part_of-Alike (dict (before ++ (line ∷ (after ++ ([] ∷ [])))))
          (dict (before ++ (after ++ ([] ∷ []))))
          (read_headers-unknown before (after ++ ([] ∷ [])) line [] u)
      ∙ sym (
          ap (λ lines. part_of T (dict lines))
            (split_crlf-join_lines (before ++ after) (All-append Printable before after p q)
              ∙ append_assoc before after ([] ∷ [])))

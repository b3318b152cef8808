-- ===== src/Wire/Dict.antt =====
-- The dict that `parse_part_headers` reads from header lines (shared/wire.py).
use cat_automation.Prelude.{
  ℕ, ◌≡◌, ◌≤◌, refl, ap, ◌∙◌, Bool, true, false, Option, none, some, [], ◌∷◌, ◌++◌, All, All-append,
  append_assoc, arith,
}
use cat_automation.Wire.Text.{Bytes, crlf, split_crlf, partition, lower}
use cat_automation.Wire.Number.{int_of}
use cat_automation.Wire.Part.{
  boundary, header_content_type, header_content_length, header_frame_id, header_timestamp,
  header_motion, header_bbox, header_area, content_type_jpeg, header_line, motion_text, Headers,
  header_get, read_header, read_headers, require_int, motion_of, require_motion,
}
use cat_automation.Wire.Lines.{IsVisible, IsFree, split_crlf-line, read_header-line}

IsVisible-printable : (s : Bytes) → All IsVisible s → All (λ c. 32 ≤ c) s
IsVisible-printable [] a = tt
IsVisible-printable (c ∷ s) a = (omega (arith, a.0.0), IsVisible-printable s a.1)

IsFree-printable : (sep : ℕ) (s : Bytes) → All (IsFree sep) s → All (λ c. 32 ≤ c) s
IsFree-printable sep [] a = tt
IsFree-printable sep (c ∷ s) a = (omega (arith, a.0.0), IsFree-printable sep s a.1)

-- A header line in front puts its entry into the dict.
pub read_headers-header_line :
    (name value rest : Bytes) (headers : Headers)
    → All (IsFree 58) name
    → All IsVisible value
    → read_headers (split_crlf false (header_line name value ++ rest)) headers
      ≡ read_headers (split_crlf false rest) ((lower name, value) ∷ headers)
unfolding header_line read_headers
read_headers-header_line name value rest headers n v =
    let line = name ++ (58 ∷ 32 ∷ value) in
    let printable : All (λ c. 32 ≤ c) line =
      All-append (λ c. 32 ≤ c) name (58 ∷ 32 ∷ value) (IsFree-printable 58 name n)
        (omega arith, (omega arith, IsVisible-printable value v)) in
    ap (λ lines. read_headers lines headers)
      (ap (λ s. split_crlf false s) (append_assoc line crlf rest)
        ∙ split_crlf-line line rest printable)
    ∙ ap (λ h. read_headers (split_crlf false rest) h) (read_header-line name value headers n v)

pub read_headers-boundary :
    (rest : Bytes) (headers : Headers)
    → read_headers (split_crlf false ((45 ∷ 45 ∷ boundary) ++ (crlf ++ rest))) headers
      ≡ read_headers (split_crlf false rest) headers
unfolding read_headers read_header partition
read_headers-boundary rest headers =
    ap (λ lines. read_headers lines headers)
      (split_crlf-line (45 ∷ 45 ∷ boundary) rest (omega arith))

pub read_headers-end : (headers : Headers) → read_headers (split_crlf false crlf) headers ≡ headers
unfolding read_headers read_header partition split_crlf
read_headers-end headers = refl

pub motion_text-IsVisible : (motion : Bool) → All IsVisible (motion_text motion)
unfolding motion_text
motion_text-IsVisible true = omega arith
motion_text-IsVisible false = omega arith

-- The entries of a block's header lines, the last one first.
abbrev pub fixed_headers : Bytes → Bytes → Bytes → Bytes → Headers
fixed_headers length frame_id ts motion =
    (lower header_motion, motion)
    ∷ (lower header_timestamp, ts)
    ∷ (lower header_frame_id, frame_id)
    ∷ (lower header_content_length, length)
    ∷ (lower header_content_type, content_type_jpeg)
    ∷ []

abbrev pub with_area : Bytes → Option Bytes → Headers → Headers
with_area area none headers = (lower header_area, area) ∷ headers
with_area area (some bbox) headers = (lower header_area, area) ∷ (lower header_bbox, bbox) ∷ headers

abbrev pub map_text : {A : Type 0} → (A → Bytes) → Option A → Option Bytes
map_text f none = none
map_text f (some a) = some (f a)

-- Each field is found in the dict.
pub headers-fields :
    (length frame_id ts motion area : Bytes) (bbox : Option Bytes)
    → let headers = with_area area bbox (fixed_headers length frame_id ts motion) in
      (require_int headers header_frame_id ≡ int_of frame_id)
      × (require_int headers header_timestamp ≡ int_of ts)
      × (require_int headers header_content_length ≡ int_of length)
      × (require_motion headers ≡ motion_of motion)
      × (header_get (lower header_bbox) headers ≡ bbox)
      × (header_get (lower header_area) headers ≡ some area)
unfolding require_int require_motion header_get lower
headers-fields length frame_id ts motion area none = (refl, refl, refl, refl, refl, refl)
headers-fields length frame_id ts motion area (some bbox) = (refl, refl, refl, refl, refl, refl)

pub motion_of-motion_text : (motion : Bool) → motion_of (motion_text motion) ≡ some motion
unfolding motion_of motion_text
motion_of-motion_text true = refl
motion_of-motion_text false = refl

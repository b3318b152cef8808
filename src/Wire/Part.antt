-- ===== src/Wire/Part.antt =====
-- The header block of a stream part (shared/wire.py): `format_part_headers` and `parse_part_headers`.
-- `none` stands for WireParseError. Python's floats are a parameter, with their `str` and `float`.
use cat_automation.Prelude.{
  ℕ, ℤ, ◌≡◌, ◌≤◌, ◌≢◌, Bool, true, false, Option, none, some, List, [], ◌∷◌, ◌++◌, All, ◌>>=◌,
  if◌then◌else◌,
}
use cat_automation.Wire.Text.{
  Bytes, codes, bytes_eq, crlf, split_crlf, split_at, partition, strip, lower,
}
use cat_automation.Wire.Number.{str_int, int_of}

abbrev pub boundary : Bytes
boundary = codes "frame"

abbrev pub header_content_type : Bytes
header_content_type = codes "Content-Type"

abbrev pub header_content_length : Bytes
header_content_length = codes "Content-Length"

abbrev pub header_frame_id : Bytes
header_frame_id = codes "X-Frame-Id"

abbrev pub header_timestamp : Bytes
header_timestamp = codes "X-Timestamp"

abbrev pub header_motion : Bytes
header_motion = codes "X-Motion"

abbrev pub header_bbox : Bytes
header_bbox = codes "X-Bbox"

abbrev pub header_area : Bytes
header_area = codes "X-Area"

abbrev pub content_type_jpeg : Bytes
content_type_jpeg = codes "image/jpeg"

-- A character that a float's text may have: a visible one of ASCII, and no comma.
abbrev pub IsPlain : ℕ → Type 0
IsPlain c = (33 ≤ c) × (c ≤ 126) × (c ≢ 44)

-- Python's floats, less the one that differs from itself.
pub record FloatText : Type 1 where
  pub Float : Type 0
  pub zero_float : Float
  pub str_float : Float → Bytes
  pub float_of : Bytes → Option Float
  pub float_of-str_float : (x : Float) → float_of (str_float x) ≡ some x
  pub str_float-IsPlain : (x : Float) → All IsPlain (str_float x)

abbrev pub Box : Type 0 → Type 0
Box Float = Float × Float × Float × Float

pub record StreamFrameMeta (Float : Type 0) : Type 0 where
  pub frame_id : ℤ
  pub ts : ℤ
  pub motion : Bool
  pub bbox : Option (Box Float)
  pub area : Float

-- One header line with its line end.
unfoldable pub header_line : Bytes → Bytes → Bytes
header_line name value = (name ++ (58 ∷ 32 ∷ value)) ++ crlf

unfoldable pub motion_text : Bool → Bytes
motion_text motion = if motion then codes "1" else codes "0"

-- A dict of headers, the latest first.
abbrev pub Headers : Type 0
Headers = List (Bytes × Bytes)

unfoldable pub header_get : Bytes → Headers → Option Bytes
header_get key [] = none
header_get key ((name, value) ∷ headers) =
    if bytes_eq name key then some value else header_get key headers

unfoldable pub add_entry : Option (Bytes × Bytes) → Headers → Headers
unfolding strip lower
add_entry none headers = headers
add_entry (some (name, value)) headers = (lower (strip name), strip value) ∷ headers

-- One round of the loop over the lines.
unfoldable pub read_header : Bytes → Headers → Headers
unfolding partition add_entry
read_header line headers = add_entry (partition 58 line) headers

unfoldable pub read_headers : List Bytes → Headers → Headers
unfolding read_header
read_headers [] headers = headers
read_headers (line ∷ lines) headers = read_headers lines (read_header line headers)

unfoldable pub or_else : Option Bytes → Option Bytes → Option Bytes
or_else none other = other
or_else (some raw) other = some raw

-- `_require_int` on a dict of headers, whose values are texts.
unfoldable pub require_int : Headers → Bytes → Option ℤ
unfolding header_get lower or_else int_of
require_int headers key = do
  raw ← or_else (header_get (lower key) headers) (header_get key headers)
  int_of raw

unfoldable pub motion_of : Bytes → Option Bool
motion_of raw =
    if bytes_eq raw (codes "1")
    then some true
    else if bytes_eq raw (codes "0")
    then some false
    else none

-- `_require_motion`
unfoldable pub require_motion : Headers → Option Bool
unfolding header_get lower motion_of
require_motion headers = do raw ← header_get (lower header_motion) headers; motion_of raw

module _ (T : FloatText) where
  unfoldable pub box_text : Box T.Float → Bytes
  box_text (x, y, w, h) =
      T.str_float x ++ (44 ∷ (T.str_float y ++ (44 ∷ (T.str_float w ++ (44 ∷ T.str_float h)))))

  unfoldable pub bbox_line : Bool → Option (Box T.Float) → Bytes
  unfolding header_line box_text
  bbox_line true (some bbox) = header_line header_bbox (box_text bbox)
  bbox_line motion bbox = []

  -- `format_part_headers`
  unfoldable pub format_part_headers : StreamFrameMeta T.Float → ℤ → Bytes
  unfolding header_line motion_text bbox_line str_int
  format_part_headers meta content_length =
      (45 ∷ 45 ∷ boundary)
      ++ (crlf
          ++ (header_line header_content_type content_type_jpeg
              ++ (header_line header_content_length (str_int content_length)
                  ++ (header_line header_frame_id (str_int meta.frame_id)
                      ++ (header_line header_timestamp (str_int meta.ts)
                          ++ (header_line header_motion (motion_text meta.motion)
                              ++ (bbox_line meta.motion meta.bbox
                                  ++ (header_line header_area (T.str_float meta.area)
                                      ++ crlf))))))))

  unfoldable pub box_of : List Bytes → Option (Box T.Float)
  box_of (x ∷ y ∷ w ∷ h ∷ []) = do
    fx ← T.float_of x
    fy ← T.float_of y
    fw ← T.float_of w
    fh ← T.float_of h
    some (fx, fy, fw, fh)
  box_of _ = none

  -- `_parse_bbox`
  unfoldable pub parse_bbox : Bytes → Option (Box T.Float)
  unfolding box_of split_at
  parse_bbox raw = box_of (split_at 44 raw)

  -- `_parse_bbox` of a header that may be absent.
  unfoldable pub optional_bbox : Option Bytes → Option (Option (Box T.Float))
  unfolding parse_bbox
  optional_bbox none = some none
  optional_bbox (some raw) = do bbox ← parse_bbox raw; some (some bbox)

  -- `_parse_float_default` on a header's text.
  unfoldable pub parse_float_default : Option Bytes → T.Float → Option T.Float
  parse_float_default none default = some default
  parse_float_default (some raw) default = T.float_of raw

  -- `parse_part_headers` from the dict on.
  unfoldable pub part_of : Headers → Option (StreamFrameMeta T.Float × ℤ)
  unfolding require_int require_motion optional_bbox parse_float_default header_get lower
  part_of headers = do
    frame_id ← require_int headers header_frame_id
    ts ← require_int headers header_timestamp
    content_length ← require_int headers header_content_length
    motion ← require_motion headers
    bbox ← optional_bbox (header_get (lower header_bbox) headers)
    area ← parse_float_default (header_get (lower header_area) headers) T.zero_float
    some (
      record { frame_id = frame_id; ts = ts; motion = motion; bbox = bbox; area = area },
      content_length,
    )

  unfoldable pub parse_part_headers : Bytes → Option (StreamFrameMeta T.Float × ℤ)
  unfolding part_of read_headers split_crlf
  parse_part_headers block = part_of (read_headers (split_crlf false block) [])

-- ===== src/Wire/RoundTrip.antt =====
-- `parse_part_headers` reads back what `format_part_headers` writes (shared/wire.py).
use cat_automation.Prelude.{
  ℤ, ◌≡◌, refl, ap, ◌∙◌, Bool, true, false, Option, none, some, [], ◌∷◌, ◌++◌, All, All-append,
  arith,
}
use cat_automation.Wire.Text.{Bytes, crlf, split_crlf, lower}
use cat_automation.Wire.Number.{str_int}
use cat_automation.Wire.Part.{
  header_content_type, header_content_length, header_frame_id, header_timestamp, header_motion,
  header_bbox, header_area, content_type_jpeg, IsPlain, FloatText, Box, StreamFrameMeta,
  header_line, motion_text, Headers, header_get, read_headers, require_int, require_motion,
  box_text, bbox_line, format_part_headers, box_of, parse_bbox, optional_bbox, parse_float_default,
  part_of, parse_part_headers,
}
use cat_automation.Wire.Lines.{IsVisible, split_at-piece, split_at-last}
use cat_automation.Wire.Dict.{
  read_headers-header_line, read_headers-boundary, read_headers-end, motion_text-IsVisible,
  fixed_headers, with_area, map_text, headers-fields, motion_of-motion_text,
}
use cat_automation.Wire.Digits.{str_int-IsVisible, int_of-str_int}

-- What a part keeps of its metadata: the box only while there is motion.
abbrev pub shown_bbox {ℓ} : {A : Type ℓ} → Bool → Option A → Option A
shown_bbox true bbox = bbox
shown_bbox false bbox = none

module _ (T : FloatText) where
  IsPlain-IsVisible : (s : Bytes) → All IsPlain s → All IsVisible s
  IsPlain-IsVisible [] a = tt
  IsPlain-IsVisible (c ∷ s) a = ((a.0.0, a.0.1), IsPlain-IsVisible s a.1)

  str_float-IsVisible : (x : T.Float) → All IsVisible (T.str_float x)
  str_float-IsVisible x = IsPlain-IsVisible (T.str_float x) (T.str_float-IsPlain x)

  comma-IsVisible :
      (x : T.Float) (s : Bytes) → All IsVisible s → All IsVisible (T.str_float x ++ (44 ∷ s))
  comma-IsVisible x s a =
      All-append IsVisible (T.str_float x) (44 ∷ s) (str_float-IsVisible x)
        ((omega arith, omega arith), a)

  box_text-IsVisible : (bbox : Box T.Float) → All IsVisible (box_text T bbox)
  unfolding box_text
  box_text-IsVisible (x, y, w, h) =
      comma-IsVisible x (T.str_float y ++ (44 ∷ (T.str_float w ++ (44 ∷ T.str_float h)))) (
        comma-IsVisible y (T.str_float w ++ (44 ∷ T.str_float h))
          (comma-IsVisible w (T.str_float h) (str_float-IsVisible h)))

  parse_bbox-box_text : (bbox : Box T.Float) → parse_bbox T (box_text T bbox) ≡ some bbox
  unfolding parse_bbox box_text box_of
  parse_bbox-box_text (x, y, w, h) =
      let last = split_at-last 44 (T.str_float h) (T.str_float-IsPlain h) in
      ap (box_of T) (
        split_at-piece 44 (T.str_float x)
          (T.str_float y ++ (44 ∷ (T.str_float w ++ (44 ∷ T.str_float h)))) (T.str_float-IsPlain x)
        ∙ ap (λ p. T.str_float x ∷ p)
            (split_at-piece 44 (T.str_float y) (T.str_float w ++ (44 ∷ T.str_float h))
                (T.str_float-IsPlain y)
              ∙ ap (λ p. T.str_float y ∷ p)
                  (split_at-piece 44 (T.str_float w) (T.str_float h) (T.str_float-IsPlain w)
                    ∙ ap (λ p. T.str_float w ∷ p) last)))
      ∙ simp (
        T.float_of-str_float x,
        T.float_of-str_float y,
        T.float_of-str_float w,
        T.float_of-str_float h,
      )

  optional_bbox-box_text :
      (bbox : Option (Box T.Float)) → optional_bbox T (map_text (box_text T) bbox) ≡ some bbox
  unfolding optional_bbox
  optional_bbox-box_text none = refl
  optional_bbox-box_text (some bbox) = rw (parse_bbox-box_text bbox) refl

  read_headers-area :
      (area : T.Float) (headers : Headers)
      → read_headers (split_crlf false (header_line header_area (T.str_float area) ++ crlf)) headers
        ≡ (lower header_area, T.str_float area) ∷ headers
  read_headers-area area headers =
      read_headers-header_line header_area (T.str_float area) crlf headers (omega arith)
        (str_float-IsVisible area)
      ∙ read_headers-end ((lower header_area, T.str_float area) ∷ headers)

  -- The last lines of a block: the box, the area and the blank line.
  read_headers-last :
      (motion : Bool) (bbox : Option (Box T.Float)) (area : T.Float) (headers : Headers)
      → read_headers
          (split_crlf false
            (bbox_line T motion bbox ++ (header_line header_area (T.str_float area) ++ crlf)))
          headers
        ≡ with_area (T.str_float area) (map_text (box_text T) (shown_bbox motion bbox)) headers
  unfolding bbox_line
  read_headers-last true (some bbox) area headers =
      read_headers-header_line header_bbox (box_text T bbox)
        (header_line header_area (T.str_float area) ++ crlf) headers (omega arith)
        (box_text-IsVisible bbox)
      ∙ read_headers-area area ((lower header_bbox, box_text T bbox) ∷ headers)
  read_headers-last true none area headers = read_headers-area area headers
  read_headers-last false bbox area headers = read_headers-area area headers

  read_headers-format_part_headers :
      (meta : StreamFrameMeta T.Float) (content_length : ℤ)
      → read_headers (split_crlf false (format_part_headers T meta content_length)) []
        ≡ with_area
            (T.str_float meta.area)
            (map_text (box_text T) (shown_bbox meta.motion meta.bbox))
            (fixed_headers
              (str_int content_length)
              (str_int meta.frame_id)
              (str_int meta.ts)
              (motion_text meta.motion))
  unfolding format_part_headers
  read_headers-format_part_headers meta content_length =
      let area = header_line header_area (T.str_float meta.area) ++ crlf in
      let bbox = bbox_line T meta.motion meta.bbox ++ area in
      let motion = header_line header_motion (motion_text meta.motion) ++ bbox in
      let ts = header_line header_timestamp (str_int meta.ts) ++ motion in
      let frame_id = header_line header_frame_id (str_int meta.frame_id) ++ ts in
      let length = header_line header_content_length (str_int content_length) ++ frame_id in
      let content_type = header_line header_content_type content_type_jpeg ++ length in
      read_headers-boundary content_type []
      ∙ read_headers-header_line header_content_type content_type_jpeg length _ (omega arith)
          (omega arith)
      ∙ read_headers-header_line header_content_length (str_int content_length) frame_id _
          (omega arith) (str_int-IsVisible content_length)
      ∙ read_headers-header_line header_frame_id (str_int meta.frame_id) ts _ (omega arith)
          (str_int-IsVisible meta.frame_id)
      ∙ read_headers-header_line header_timestamp (str_int meta.ts) motion _ (omega arith)
          (str_int-IsVisible meta.ts)
      ∙ read_headers-header_line header_motion (motion_text meta.motion) bbox _ (omega arith)
          (motion_text-IsVisible meta.motion)
      ∙ read_headers-last meta.motion meta.bbox meta.area _

  part_of-fields :
      (headers : Headers) (frame_id ts content_length : ℤ) (motion : Bool)
      (bbox : Option (Box T.Float)) (area : T.Float)
      → require_int headers header_frame_id ≡ some frame_id
      → require_int headers header_timestamp ≡ some ts
      → require_int headers header_content_length ≡ some content_length
      → require_motion headers ≡ some motion
      → optional_bbox T (header_get (lower header_bbox) headers) ≡ some bbox
      → parse_float_default T (header_get (lower header_area) headers) T.zero_float ≡ some area
      → part_of T headers
        ≡ some (
          record { frame_id = frame_id; ts = ts; motion = motion; bbox = bbox; area = area },
          content_length,
        )
  unfolding part_of
  part_of-fields headers frame_id ts content_length motion bbox area i t l m b a =
      simp (i, t, l, m, b, a)

  -- Whatever the metadata and the content length are: the parser reads the block that the serializer
  -- writes back to both, the box left out where there is no motion.
  pub parse_part_headers-format_part_headers :
      (meta : StreamFrameMeta T.Float) (content_length : ℤ)
      → parse_part_headers T (format_part_headers T meta content_length)
        ≡ some (record meta { bbox = shown_bbox meta.motion meta.bbox }, content_length)
  unfolding parse_part_headers part_of parse_float_default
  parse_part_headers-format_part_headers meta content_length =
      let bbox = map_text (box_text T) (shown_bbox meta.motion meta.bbox) in
      let area = T.str_float meta.area in
      let (i, t, l, m, b, a) =
        headers-fields (str_int content_length) (str_int meta.frame_id) (str_int meta.ts)
          (motion_text meta.motion) area bbox in
      let headers = with_area area bbox (
        fixed_headers (str_int content_length) (str_int meta.frame_id) (str_int meta.ts)
          (motion_text meta.motion)) in
      ap (part_of T) (read_headers-format_part_headers meta content_length)
      ∙ part_of-fields headers meta.frame_id meta.ts content_length meta.motion
          (shown_bbox meta.motion meta.bbox) meta.area (i ∙ int_of-str_int meta.frame_id)
          (t ∙ int_of-str_int meta.ts) (l ∙ int_of-str_int content_length)
          (m ∙ motion_of-motion_text meta.motion)
          (ap (optional_bbox T) b ∙ optional_bbox-box_text (shown_bbox meta.motion meta.bbox))
          (ap (λ o. parse_float_default T o T.zero_float) a ∙ T.float_of-str_float meta.area)

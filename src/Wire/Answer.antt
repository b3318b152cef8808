-- ===== src/Wire/Answer.antt =====
-- What `parse_status` (shared/wire.py) makes of the edge's answer, and what it refuses.
use cat_automation.Prelude.{
  ℤ, ◌≡◌, refl, sym, ap, subst, ◌∙◌, ◌⊎◌, inl, inr, Bool, Option, none, some,
}
use cat_automation.Wire.Text.{Bytes, codes, lower}
use cat_automation.Wire.Number.{int_of}
use cat_automation.Wire.Part.{FloatText, Box}
use cat_automation.Wire.Status.{
  Json, null, boolean, integer, real, text, array, object, Fields, Read, parsed, wire_parse_error,
  overflow_error, ◌>>=◌, StatusSnapshot, JsonText, json_get, value_or, read_int, int_value,
  require_json_int, bool_value, require_bool, system_of, float_value, bbox_from_list, bbox_value,
  area_value, str_value, error_value, version_value, parse_status, bbox_json, error_json,
  system_json, status_json,
}

module _ (T : FloatText) (J : JsonText T) where
  bbox_value-bbox_json :
      (bbox : Option (Box T.Float)) → bbox_value T J (some (bbox_json T J bbox)) ≡ parsed bbox
  unfolding bbox_value bbox_json bbox_from_list float_value
  bbox_value-bbox_json none = refl
  bbox_value-bbox_json (some (x, y, w, h)) = refl

  error_value-error_json :
      (error : Option Bytes) → error_value T J (some (error_json T J error)) ≡ error
  unfolding error_value error_json str_value
  error_value-error_json none = refl
  error_value-error_json (some error) = refl

  system_of-system_json :
      (system : Option (Fields T.Float)) → system_of (some (system_json T J system)) ≡ parsed system
  unfolding system_of system_json
  system_of-system_json none = refl
  system_of-system_json (some fields) = refl

  -- Whatever the edge's snapshot is: the parser reads the answer of /status back to it.
  pub parse_status-status_json :
      (s : StatusSnapshot T.Float) → parse_status T J (status_json T J s) ≡ parsed s
  unfolding parse_status status_json json_get require_json_int require_bool area_value float_value
      version_value str_value lower
  parse_status-status_json s = simp (
    bbox_value-bbox_json s.bbox,
    error_value-error_json s.last_error,
    system_of-system_json s.system,
  )

bind_inv :
    {A B : Type 0} (m : Read A) (f : A → Read B) {b : B}
    → m >>= f ≡ parsed b
    → (a : A) × (m ≡ parsed a) × (f a ≡ parsed b)
bind_inv (parsed a) f h = (a, refl, h)
bind_inv wire_parse_error f h = cc
bind_inv overflow_error f h = cc

-- The value is an integer, or a text that `int` reads.
abbrev pub IsInteger : {Float : Type 0} → ℤ → Option (Json Float) → Type 0
IsInteger n v =
    (v ≡ some (integer n)) ⊎ (raw : Bytes) × (v ≡ some (text raw)) × (int_of raw ≡ some n)

read_int_inv : (o : Option ℤ) (n : ℤ) → read_int o ≡ parsed n → o ≡ some n
unfolding read_int
read_int_inv none n h = cc
read_int_inv (some m) n h = cc h

int_value_inv :
    {Float : Type 0} (v : Option (Json Float)) (n : ℤ) → int_value v ≡ parsed n → IsInteger n v
unfolding int_value read_int
int_value_inv none n h = cc
int_value_inv (some null) n h = cc
int_value_inv (some (boolean b)) n h = cc
int_value_inv (some (integer m)) n h = inl (cc h)
int_value_inv (some (real x)) n h = cc
int_value_inv (some (text raw)) n h = inr (raw, refl, read_int_inv (int_of raw) n h)
int_value_inv (some (array items)) n h = cc
int_value_inv (some (object fields)) n h = cc

bool_value_inv :
    {Float : Type 0} (v : Option (Json Float)) (b : Bool)
    → bool_value v ≡ parsed b
    → v ≡ some (boolean b)
unfolding bool_value
bool_value_inv none b h = cc
bool_value_inv (some null) b h = cc
bool_value_inv (some (boolean c)) b h = cc h
bool_value_inv (some (integer m)) b h = cc
bool_value_inv (some (real x)) b h = cc
bool_value_inv (some (text raw)) b h = cc
bool_value_inv (some (array items)) b h = cc
bool_value_inv (some (object fields)) b h = cc

value_or_same : {Float : Type 0} (o : Option (Json Float)) → value_or o o ≡ o
unfolding value_or
value_or_same none = refl
value_or_same (some v) = refl

parsed_inj : {A : Type 0} {a b : A} → parsed a ≡ parsed b → a ≡ b
parsed_inj h = cc h

-- For a key in lower case.
require_json_int_inv :
    {Float : Type 0} (fields : Fields Float) (key : Bytes) (n : ℤ)
    → lower key ≡ key
    → require_json_int fields key ≡ parsed n
    → IsInteger n (json_get key fields)
unfolding require_json_int
require_json_int_inv fields key n e h = int_value_inv (json_get key fields) n (
    ap int_value (
      sym (
        ap (λ k. value_or (json_get k fields) (json_get key fields)) e
        ∙ value_or_same (json_get key fields)))
    ∙ h)

require_bool_inv :
    {Float : Type 0} (fields : Fields Float) (key : Bytes) (b : Bool)
    → require_bool fields key ≡ parsed b
    → json_get key fields ≡ some (boolean b)
unfolding require_bool
require_bool_inv fields key b h = bool_value_inv (json_get key fields) b h

module _ (T : FloatText) (J : JsonText T) where
  -- An answer that parses has an integer, or a text that `int` reads, for the frame id and the
  -- timestamp, and JSON booleans for the motion and the camera's health: no text and no number passes
  -- for a verdict.
  pub parse_status-strict :
      (fields : Fields T.Float) (s : StatusSnapshot T.Float)
      → parse_status T J fields ≡ parsed s
      → IsInteger s.frame_id (json_get (codes "frame_id") fields)
        × IsInteger s.ts (json_get (codes "ts") fields)
        × (json_get (codes "motion") fields ≡ some (boolean s.motion))
        × (json_get (codes "camera_ok") fields ≡ some (boolean s.camera_ok))
  unfolding parse_status lower
  parse_status-strict fields s h =
      let (frame_id, i, h1) = bind_inv (require_json_int fields (codes "frame_id")) _ h in
      let (ts, t, h2) = bind_inv (require_json_int fields (codes "ts")) _ h1 in
      let (motion, m, h3) = bind_inv (require_bool fields (codes "motion")) _ h2 in
      let (camera_ok, c, h4) = bind_inv (require_bool fields (codes "camera_ok")) _ h3 in
      let (bbox, _, h5) = bind_inv (bbox_value T J (json_get (codes "bbox") fields)) _ h4 in
      let (area, _, h6) = bind_inv (area_value T J (json_get (codes "area") fields)) _ h5 in
      let (system, _, h7) = bind_inv (system_of (json_get (codes "system") fields)) _ h6 in
      subst
        (λ (r : StatusSnapshot T.Float).
          IsInteger r.frame_id (json_get (codes "frame_id") fields)
          × IsInteger r.ts (json_get (codes "ts") fields)
          × (json_get (codes "motion") fields ≡ some (boolean r.motion))
          × (json_get (codes "camera_ok") fields ≡ some (boolean r.camera_ok)))
        (parsed_inj h7)
        (
          require_json_int_inv fields (codes "frame_id") frame_id refl i,
          require_json_int_inv fields (codes "ts") ts refl t,
          require_bool_inv fields (codes "motion") motion m,
          require_bool_inv fields (codes "camera_ok") camera_ok c,
        )

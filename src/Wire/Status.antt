-- ===== src/Wire/Status.antt =====
-- `parse_status` (shared/wire.py), and the object that the edge's /status route answers
-- (edge/server/app.py). A text is in Latin-1. `float` of an integer and `str` of a value that is no text
-- are parameters, and `camera_ok`, which the route computes before the answer from the snapshot and the
-- frame rate, is an input.
use cat_automation.Prelude.{ℤ, pos, Bool, true, false, Option, none, some, if◌then◌else◌}
use cat_automation.Wire.Text.{Bytes, codes, bytes_eq, lower}
use cat_automation.Wire.Number.{int_of}
use cat_automation.Wire.Part.{FloatText, Box}

mutual
  -- A decoded JSON value.
  pub data Json (Float : Type 0) : Type 0 where
    null : Json Float
    boolean : Bool → Json Float
    integer : ℤ → Json Float
    real : Float → Json Float
    text : Bytes → Json Float
    array : Items Float → Json Float
    object : Fields Float → Json Float

  pub data Items (Float : Type 0) : Type 0 where
    empty_array : Items Float
    item : Json Float → Items Float → Items Float

  pub data Fields (Float : Type 0) : Type 0 where
    empty_object : Fields Float
    field : Bytes → Json Float → Fields Float → Fields Float

-- `overflow_error` is the OverflowError that `float` raises for an integer out of its range.
pub data Read {ℓ} (A : Type ℓ) : Type ℓ where
  parsed : A → Read A
  wire_parse_error : Read A
  overflow_error : Read A

infixl 5 ◌>>=◌
abbrev pub ◌>>=◌ {ℓ κ} : {A : Type ℓ} {B : Type κ} → Read A → (A → Read B) → Read B
parsed a >>= f = f a
wire_parse_error >>= f = wire_parse_error
overflow_error >>= f = overflow_error

-- `system` is an object, or none.
pub record StatusSnapshot (Float : Type 0) : Type 0 where
  pub frame_id : ℤ
  pub ts : ℤ
  pub motion : Bool
  pub bbox : Option (Box Float)
  pub area : Float
  pub camera_ok : Bool
  pub last_error : Option Bytes
  pub version : Bytes
  pub system : Option (Fields Float)

-- What the parser needs of Python for values that are no texts.
pub record JsonText (T : FloatText) : Type 0 where
  pub float_of_int : ℤ → Option T.Float
  pub str_other : Json T.Float → Bytes

-- `obj.get(key)`; `none` is an absent key.
unfoldable pub json_get : {Float : Type 0} → Bytes → Fields Float → Option (Json Float)
json_get key empty_object = none
json_get key (field name value fields) =
    if bytes_eq name key then some value else json_get key fields

unfoldable pub value_or :
    {Float : Type 0} → Option (Json Float) → Option (Json Float) → Option (Json Float)
value_or none other = other
value_or (some value) other = some value

unfoldable pub read_int : Option ℤ → Read ℤ
read_int none = wire_parse_error
read_int (some n) = parsed n

-- The value of `_require_int`, by its type.
unfoldable pub int_value : {Float : Type 0} → Option (Json Float) → Read ℤ
unfolding read_int int_of
int_value (some (integer n)) = parsed n
int_value (some (text raw)) = read_int (int_of raw)
int_value _ = wire_parse_error

-- `_require_int`
unfoldable pub require_json_int : {Float : Type 0} → Fields Float → Bytes → Read ℤ
unfolding json_get lower value_or int_value
require_json_int fields key =
    int_value (value_or (json_get (lower key) fields) (json_get key fields))

unfoldable pub bool_value : {Float : Type 0} → Option (Json Float) → Read Bool
bool_value (some (boolean b)) = parsed b
bool_value _ = wire_parse_error

-- `_require_bool`
unfoldable pub require_bool : {Float : Type 0} → Fields Float → Bytes → Read Bool
unfolding json_get bool_value
require_bool fields key = bool_value (json_get key fields)

unfoldable pub system_of : {Float : Type 0} → Option (Json Float) → Read (Option (Fields Float))
system_of none = parsed none
system_of (some null) = parsed none
system_of (some (object fields)) = parsed (some fields)
system_of _ = wire_parse_error

module _ (T : FloatText) (J : JsonText T) where
  unfoldable pub read_float : Option T.Float → Read T.Float
  read_float none = wire_parse_error
  read_float (some x) = parsed x

  unfoldable pub float_of_integer : ℤ → Read T.Float
  float_of_integer n = elim (J.float_of_int n) [ none ↦ overflow_error | some x ↦ parsed x ]

  -- `float(v)` of a JSON value, its TypeError and ValueError caught.
  unfoldable pub float_value : Json T.Float → Read T.Float
  unfolding read_float float_of_integer
  float_value (real x) = parsed x
  float_value (integer n) = float_of_integer n
  float_value (boolean true) = float_of_integer (pos 1)
  float_value (boolean false) = float_of_integer (pos 0)
  float_value (text raw) = read_float (T.float_of raw)
  float_value _ = wire_parse_error

  -- `_bbox_from_list`
  unfoldable pub bbox_from_list : Json T.Float → Read (Box T.Float)
  unfolding float_value
  bbox_from_list (array (item x (item y (item w (item h empty_array))))) = do
    fx ← float_value x
    fy ← float_value y
    fw ← float_value w
    fh ← float_value h
    parsed (fx, fy, fw, fh)
  bbox_from_list _ = wire_parse_error

  unfoldable pub bbox_value : Option (Json T.Float) → Read (Option (Box T.Float))
  unfolding bbox_from_list
  bbox_value none = parsed none
  bbox_value (some null) = parsed none
  bbox_value (some raw) = do bbox ← bbox_from_list raw; parsed (some bbox)

  -- `_parse_float_default` on a JSON value.
  unfoldable pub area_value : Option (Json T.Float) → Read T.Float
  unfolding float_value
  area_value none = parsed T.zero_float
  area_value (some null) = parsed T.zero_float
  area_value (some raw) = float_value raw

  -- `str(v)`
  unfoldable pub str_value : Json T.Float → Bytes
  str_value (text raw) = raw
  str_value v = J.str_other v

  unfoldable pub error_value : Option (Json T.Float) → Option Bytes
  unfolding str_value
  error_value none = none
  error_value (some null) = none
  error_value (some v) = some (str_value v)

  unfoldable pub version_value : Option (Json T.Float) → Bytes
  unfolding str_value
  version_value none = codes "unknown"
  version_value (some null) = codes "unknown"
  version_value (some v) = str_value v

  unfoldable pub parse_status : Fields T.Float → Read (StatusSnapshot T.Float)
  unfolding require_json_int require_bool bbox_value area_value error_value version_value system_of
      json_get
  parse_status fields = do
    frame_id ← require_json_int fields (codes "frame_id")
    ts ← require_json_int fields (codes "ts")
    motion ← require_bool fields (codes "motion")
    camera_ok ← require_bool fields (codes "camera_ok")
    bbox ← bbox_value (json_get (codes "bbox") fields)
    area ← area_value (json_get (codes "area") fields)
    system ← system_of (json_get (codes "system") fields)
    parsed (record {
      frame_id = frame_id;
      ts = ts;
      motion = motion;
      bbox = bbox;
      area = area;
      camera_ok = camera_ok;
      last_error = error_value (json_get (codes "last_error") fields);
      version = version_value (json_get (codes "version") fields);
      system = system;
    })

  unfoldable pub bbox_json : Option (Box T.Float) → Json T.Float
  bbox_json none = null
  bbox_json (some (x, y, w, h)) =
      array (item (real x) (item (real y) (item (real w) (item (real h) empty_array))))

  unfoldable pub error_json : Option Bytes → Json T.Float
  error_json none = null
  error_json (some error) = text error

  unfoldable pub system_json : Option (Fields T.Float) → Json T.Float
  system_json none = null
  system_json (some fields) = object fields

  -- What the route `status` answers for the snapshot `s`.
  unfoldable pub status_json : StatusSnapshot T.Float → Fields T.Float
  unfolding bbox_json error_json system_json
  status_json s = field (codes "frame_id") (integer s.frame_id) (
      field (codes "ts") (integer s.ts) (
        field (codes "motion") (boolean s.motion) (
          field (codes "bbox") (bbox_json s.bbox) (
            field (codes "area") (real s.area) (
              field (codes "camera_ok") (boolean s.camera_ok) (
                field (codes "last_error") (error_json s.last_error) (
                  field (codes "version") (text s.version)
                    (field (codes "system") (system_json s.system) empty_object))))))))

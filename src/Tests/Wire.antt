-- ===== src/Tests/Wire.antt =====
-- A part's header block and an answer of /status (shared/wire.py), with decimals for the floats.
use cat_automation.Prelude.{
  ℕ, pos, negsuc, ◌≡◌, refl, true, false, none, some, List, [], ◌∷◌, ◌++◌, All, arith,
}
use cat_automation.Wire.Text.{Bytes, codes, crlf, split_crlf, partition, strip, lower}
use cat_automation.Wire.Number.{str_nat, read_digits, int_of}
use cat_automation.Wire.Digits.{IsDigit, read_digits-str_nat, str_nat-IsDigit}
use cat_automation.Wire.Part.{
  IsPlain, FloatText, StreamFrameMeta, format_part_headers, parse_part_headers,
}
use cat_automation.Wire.RoundTrip.{shown_bbox, parse_part_headers-format_part_headers}
use cat_automation.Wire.Unknown.{join_lines, parse_part_headers-unknown}
use cat_automation.Wire.Status.{
  boolean, parsed, StatusSnapshot, JsonText, json_get, parse_status, status_json,
}
use cat_automation.Wire.Answer.{IsInteger, parse_status-status_json, parse_status-strict}

digits-IsPlain : (s : Bytes) → All IsDigit s → All IsPlain s
digits-IsPlain [] a = tt
digits-IsPlain (c ∷ s) a =
    ((omega (arith, a.0.0), omega (arith, a.0.1), omega (arith, a.0.0)), digits-IsPlain s a.1)

abbrev decimals : FloatText
decimals = record {
  Float = ℕ;
  zero_float = 0;
  str_float = str_nat;
  float_of = read_digits false 0;
  float_of-str_float = read_digits-str_nat;
  str_float-IsPlain = λ n. digits-IsPlain (str_nat n) (str_nat-IsDigit n);
}

abbrev moving : StreamFrameMeta ℕ
moving = record {
  frame_id = pos 7;
  ts = pos 1700000000123;
  motion = true;
  bbox = some (1, 2, 30, 40);
  area = 5;
}

last_line : split_crlf false (codes "X-Area: 5" ++ crlf) ≡ codes "X-Area: 5" ∷ [] ∷ []
unfolding split_crlf
last_line = refl

spaced_value : int_of (codes " -1_000 ") ≡ some (negsuc 999)
unfolding int_of
spaced_value = refl

parse_part_headers-format_part_headers_example :
    parse_part_headers decimals (format_part_headers decimals moving (pos 20000))
    ≡ some (record moving { bbox = shown_bbox true (some (1, 2, 30, 40)) }, pos 20000)
parse_part_headers-format_part_headers_example =
    parse_part_headers-format_part_headers decimals moving (pos 20000)

abbrev known_lines : List Bytes
known_lines = codes "X-FRAME-ID: 7" ∷ codes "Content-Length: 20" ∷ codes "X-Timestamp: 1700" ∷ []

known_lines_parse :
    parse_part_headers decimals (join_lines (known_lines ++ (codes "X-Motion: 0" ∷ [])))
    ≡ some
        (record { frame_id = pos 7; ts = pos 1700; motion = false; bbox = none; area = 0 }, pos 20)
unfolding parse_part_headers join_lines split_crlf partition strip lower int_of
known_lines_parse = refl

parse_part_headers-unknown_example :
    parse_part_headers decimals
      (join_lines (known_lines ++ (codes "X-Zoom: 2" ∷ (codes "X-Motion: 0" ∷ []))))
    ≡ parse_part_headers decimals (join_lines (known_lines ++ (codes "X-Motion: 0" ∷ [])))
parse_part_headers-unknown_example =
    parse_part_headers-unknown decimals known_lines (codes "X-Motion: 0" ∷ []) (codes "X-Zoom: 2")
      (omega arith) (omega arith) (omega arith)
      (unfold partition strip lower in
        (refl, (refl, (refl, (refl, (refl, (refl, (refl, (refl, (refl, tt))))))))))

abbrev decimal_json : JsonText decimals
decimal_json = record {
  float_of_int = λ n. elim n [ pos k ↦ some k | negsuc k ↦ none ];
  str_other = λ v. codes "value";
}

abbrev healthy : StatusSnapshot ℕ
healthy = record {
  frame_id = pos 7;
  ts = pos 1700000000123;
  motion = true;
  bbox = some (1, 2, 30, 40);
  area = 5;
  camera_ok = true;
  last_error = none;
  version = codes "0.9";
  system = none;
}

parse_status-status_json_example :
    parse_status decimals decimal_json (status_json decimals decimal_json healthy) ≡ parsed healthy
parse_status-status_json_example = parse_status-status_json decimals decimal_json healthy

parse_status-strict_example :
    let fields = status_json decimals decimal_json healthy in
    IsInteger (pos 7) (json_get (codes "frame_id") fields)
    × IsInteger (pos 1700000000123) (json_get (codes "ts") fields)
    × (json_get (codes "motion") fields ≡ some (boolean true))
    × (json_get (codes "camera_ok") fields ≡ some (boolean true))
parse_status-strict_example =
    parse_status-strict decimals decimal_json (status_json decimals decimal_json healthy) healthy
      (parse_status-status_json decimals decimal_json healthy)

-- ===== src/Tests/Conversion.antt =====
-- TypeConversion on a concrete text.
use cc_be_chat_test.Common.{◌≡◌, refl, true, [], ◌∷◌}
use cc_be_chat_test.Util.{int64_value, Parsers, int32_name, type_conversion}

-- Every text is the number 7.
abbrev seven : Parsers
seven = record {
  parse_time = λ text. (7, true);
  atoi = λ text. (7, true);
  parse_int = λ text. (7, true);
  parse_float = λ text. (7, true);
  to_float32 = λ x. x;
}

-- The value for int32 is the one for int64.
wide_int32 : type_conversion seven (55 ∷ []) int32_name ≡ (int64_value 7, true)
unfolding type_conversion
wide_int32 = refl

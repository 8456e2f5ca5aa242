-- ===== src/Util.antt =====
-- TypeConversion of util/type.go. What strconv and time make of a text is an argument, a value and
-- whether there was no error; an integer is its bits, a time and a float are numbers that stand for them.
use cc_be_chat_test.Common.{ℕ, ◌%◌, ◌^◌, Bool, true, false, List, [], ◌∷◌, if◌then◌else◌, eq_text}

-- The Go values that a conversion gives.
pub data Value : Type 0 where
  string_value : List ℕ → Value
  time_value : ℕ → Value
  int_value : ℕ → Value
  int8_value : ℕ → Value
  int64_value : ℕ → Value
  float32_value : ℕ → Value
  float64_value : ℕ → Value

-- time.ParseInLocation of the source's layout, strconv.Atoi, ParseInt and ParseFloat, and the
-- conversion of a float64 to a float32.
pub record Parsers : Type 0 where
  pub parse_time : List ℕ → ℕ × Bool
  pub atoi : List ℕ → ℕ × Bool
  pub parse_int : List ℕ → ℕ × Bool
  pub parse_float : List ℕ → ℕ × Bool
  pub to_float32 : ℕ → ℕ

-- "string", "time.Time", "Time", "int", "int8",
-- "int32", "int64", "float32", "float64"
abbrev pub string_name : List ℕ
string_name = 115 ∷ 116 ∷ 114 ∷ 105 ∷ 110 ∷ 103 ∷ []

abbrev pub time_time_name : List ℕ
time_time_name = 116 ∷ 105 ∷ 109 ∷ 101 ∷ 46 ∷ 84 ∷ 105 ∷ 109 ∷ 101 ∷ []

abbrev pub time_name : List ℕ
time_name = 84 ∷ 105 ∷ 109 ∷ 101 ∷ []

abbrev pub int_name : List ℕ
int_name = 105 ∷ 110 ∷ 116 ∷ []

abbrev pub int8_name : List ℕ
int8_name = 105 ∷ 110 ∷ 116 ∷ 56 ∷ []

abbrev pub int32_name : List ℕ
int32_name = 105 ∷ 110 ∷ 116 ∷ 51 ∷ 50 ∷ []

abbrev pub int64_name : List ℕ
int64_name = 105 ∷ 110 ∷ 116 ∷ 54 ∷ 52 ∷ []

abbrev pub float32_name : List ℕ
float32_name = 102 ∷ 108 ∷ 111 ∷ 97 ∷ 116 ∷ 51 ∷ 50 ∷ []

abbrev pub float64_name : List ℕ
float64_name = 102 ∷ 108 ∷ 111 ∷ 97 ∷ 116 ∷ 54 ∷ 52 ∷ []

-- The value of the type of that name, and whether there was no error; the source converts to int64 for
-- int32.
unfoldable pub type_conversion : Parsers → List ℕ → List ℕ → Value × Bool
type_conversion ps value ntype =
    let parsed_time = ps.parse_time value in
    let parsed_int = ps.parse_int value in
    let parsed_float = ps.parse_float value in
    let atoi = ps.atoi value in
    if eq_text ntype string_name
    then (string_value value, true)
    else if eq_text ntype time_time_name
    then (time_value parsed_time.0, parsed_time.1)
    else if eq_text ntype time_name
    then (time_value parsed_time.0, parsed_time.1)
    else if eq_text ntype int_name
    then (int_value atoi.0, atoi.1)
    else if eq_text ntype int8_name
    then (int8_value (parsed_int.0 % 2 ^ 8), parsed_int.1)
    else if eq_text ntype int32_name
    then (int64_value parsed_int.0, parsed_int.1)
    else if eq_text ntype int64_name
    then (int64_value parsed_int.0, parsed_int.1)
    else if eq_text ntype float32_name
    then (float32_value (ps.to_float32 parsed_float.0), parsed_float.1)
    else if eq_text ntype float64_name
    then (float64_value parsed_float.0, parsed_float.1)
    else (string_value value, false)

-- ===== src/Web/Json.antt =====
-- The bodies of requests as encoding/json decodes them into the structs of the handlers.
--
-- A body is none where it is no JSON, or JSON of another kind than an object; otherwise it is the
-- fields in their order, `null` being the empty object. Keys are compared exactly, while the
-- library falls back on a comparison that ignores case.
use cloudmini_reseller.Common.{
  String, str_eq, Bool, false, Option, none, some, List, [], ◌∷◌, if◌then◌else◌,
}
use cloudmini_reseller.Common.Int.{ℤ, pos, ◌*ℤ◌}

-- `whole` is a number written without a fraction, `fraction` one with, in ten-thousandths.
pub data Value : Type 0 where
  null : Value
  text : String → Value
  whole fraction : ℤ → Value
  flag : Bool → Value
  texts : List String → Value
  other : Value

abbrev pub Fields : Type 0
Fields = List (String × Value)

-- A field of the struct: it starts at its zero value, a later occurrence of the key overwrites an
-- earlier one, null leaves it, and a value of another type is an error.
module _ {A : Type 0} (read : A → Value → Option A) where
  abbrev pub decode : String → A → Fields → Option A
  decode name a [] = some a
  decode name a ((key, v) ∷ fields) =
      if str_eq key name
      then elim (read a v) [ none ↦ none | some a' ↦ decode name a' fields ]
      else decode name a fields

abbrev read_text : String → Value → Option String
read_text a null = some a
read_text a (text s) = some s
read_text a _ = none

abbrev read_int : ℤ → Value → Option ℤ
read_int a null = some a
read_int a (whole n) = some n
read_int a _ = none

abbrev read_bool : Bool → Value → Option Bool
read_bool a null = some a
read_bool a (flag b) = some b
read_bool a _ = none

-- float64, in ten-thousandths.
abbrev read_float : ℤ → Value → Option ℤ
read_float a null = some a
read_float a (whole n) = some (n *ℤ pos 10000)
read_float a (fraction n) = some n
read_float a _ = none

-- A pointer, which null sets to nil.
abbrev read_optional : Option String → Value → Option (Option String)
read_optional a null = some none
read_optional a (text s) = some (some s)
read_optional a _ = none

abbrev read_optional_int : Option ℤ → Value → Option (Option ℤ)
read_optional_int a null = some none
read_optional_int a (whole n) = some (some n)
read_optional_int a _ = none

abbrev read_texts : List String → Value → Option (List String)
read_texts a null = some []
read_texts a (texts ss) = some ss
read_texts a _ = none

-- decimal.Decimal reads numbers and, by the library's parser, texts.
abbrev read_decimal : (String → Option ℤ) → ℤ → Value → Option ℤ
read_decimal parse a null = some a
read_decimal parse a (text s) = parse s
read_decimal parse a (whole n) = some (n *ℤ pos 10000)
read_decimal parse a (fraction n) = some n
read_decimal parse a _ = none

abbrev pub text_field : String → Fields → Option String
text_field name = decode read_text name ""

abbrev pub int_field : String → Fields → Option ℤ
int_field name = decode read_int name (pos 0)

abbrev pub bool_field : String → Fields → Option Bool
bool_field name = decode read_bool name false

abbrev pub float_field : String → Fields → Option ℤ
float_field name = decode read_float name (pos 0)

abbrev pub optional_field : String → Fields → Option (Option String)
optional_field name = decode read_optional name none

abbrev pub optional_int_field : String → Fields → Option (Option ℤ)
optional_int_field name = decode read_optional_int name none

abbrev pub texts_field : String → Fields → Option (List String)
texts_field name = decode read_texts name []

abbrev pub decimal_field : (String → Option ℤ) → String → Fields → Option ℤ
decimal_field parse name = decode (read_decimal parse) name (pos 0)

-- Chains of fields that must all decode.
infixl 5 ◌>>=◌
abbrev pub ◌>>=◌ : {A B : Type 0} → Option A → (A → Option B) → Option B
none >>= k = none
some a >>= k = k a

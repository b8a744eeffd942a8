-- ===== src/Http/Validation.antt =====
-- pkg/validation/helpers.go, and what the controllers make of the validator's errors
-- (`validationMessage` and `validationDetails`). The validator itself is a third-party package.
use Prim.Native.String.{◌++◌ as str_append}
use beer_avaliation_api.Base.{
  String, Bool, true, false, Option, none, some, List, [], ◌∷◌, map, if◌then◌else◌, str_eq,
}
use beer_avaliation_api.Base.Dict.{Dict, lookup}
use beer_avaliation_api.Errors.{ProblemDetail}

-- `reflect.Kind`; the kinds that are told apart by nothing are one.
pub data Kind : Type 0 where
  int_kind int8_kind int16_kind int32_kind int64_kind float32_kind float64_kind : Kind
  other_kind : Kind

-- `validator.FieldError`
pub record FieldError : Type 0 where
  pub field : String
  pub tag : String
  pub param : String
  pub kind : Kind

-- The error of `validate.Struct`: its text, and its fields if it is a `validator.ValidationErrors`.
pub record Invalid : Type 0 where
  pub text : String
  pub fields : Option (List FieldError)

abbrev labels : Dict String
labels =
    ("Name", "nome")
    ∷ ("Style", "estilo")
    ∷ ("Description", "descrição")
    ∷ ("ImageUrl", "imagem")
    ∷ ("Alcohol", "teor alcoólico")
    ∷ ("Taste", "sabor")
    ∷ ("Aroma", "aroma")
    ∷ ("Color", "cor")
    ∷ ("Body", "corpo")
    ∷ ("Carbonation", "carbonatação")
    ∷ ("Finish", "finalização")
    ∷ ("Text", "texto")
    ∷ ("Rating", "avaliação")
    ∷ ("Comments", "comentários")
    ∷ ("Username", "nome de utilizador")
    ∷ ("Email", "email")
    ∷ ("Password", "palavra-passe")
    ∷ ("Role", "perfil")
    ∷ []

-- `FieldLabel`
unfoldable pub field_label : String → String
field_label field = elim (lookup field labels) [ none ↦ field | some l ↦ l ]

-- `IsNumericKind`
unfoldable pub is_numeric_kind : Kind → Bool
is_numeric_kind other_kind = false
is_numeric_kind _ = true

-- `RuleMessage`
unfoldable pub rule_message : FieldError → String
unfolding is_numeric_kind
rule_message fe =
    if str_eq fe.tag "required"
    then "é obrigatório"
    else if str_eq fe.tag "min"
    then (if is_numeric_kind fe.kind
        then str_append "deve ser no mínimo " fe.param
        else str_append "deve ter pelo menos " (str_append fe.param " caracteres"))
    else if str_eq fe.tag "max"
    then (if is_numeric_kind fe.kind
        then str_append "deve ser no máximo " fe.param
        else str_append "deve ter no máximo " (str_append fe.param " caracteres"))
    else if str_eq fe.tag "https_url"
    then "deve ser um URL https válido"
    else if str_eq fe.tag "email"
    then "deve ser um email válido"
    else "valor inválido"

unfoldable pub labelled : FieldError → String
unfolding field_label rule_message
labelled fe = str_append (field_label fe.field) (str_append ": " (rule_message fe))

-- `strings.Join(msgs, "; ")`
unfoldable pub join_semicolon : List String → String
join_semicolon [] = ""
join_semicolon (m ∷ []) = m
join_semicolon (m ∷ next ∷ ms) = str_append m (str_append "; " (join_semicolon (next ∷ ms)))

-- `validationMessage`
unfoldable pub validation_message : Invalid → String
unfolding labelled join_semicolon
validation_message invalid = elim invalid.fields [
  | none ↦ invalid.text
  | some errors ↦ join_semicolon (map labelled errors)
]

abbrev detail_of : FieldError → ProblemDetail
unfolding labelled
detail_of fe = record {
  field = field_label fe.field;
  code = str_append "invalid_" fe.tag;
  detail = labelled fe;
}

-- `validationDetails`
unfoldable pub validation_details : Invalid → List ProblemDetail
unfolding field_label labelled
validation_details invalid = elim invalid.fields [ none ↦ [] | some errors ↦ map detail_of errors ]

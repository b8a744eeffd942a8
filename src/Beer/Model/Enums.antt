-- ===== src/Beer/Model/Enums.antt =====
-- The enums of internal/beer/model/beer.go: the allowlists, which values are accepted, and what the
-- endpoint of the enums lists.
use beer_avaliation_api.Base.{
  ◌≡◌, refl, String, Bool, false, ◌||◌, List, [], ◌∷◌, arith, str_eq, if◌then◌else◌,
}
use text.Mathlib.Text.{is_le}
use Prim.Native.String.{compare}

abbrev pub flavor_values : List String
flavor_values = "Doce" ∷ "Amargo" ∷ "Frutado" ∷ "Especiarias" ∷ "Salgado" ∷ "Azedo" ∷ []

abbrev pub aroma_values : List String
aroma_values =
    "Floral" ∷ "Frutado" ∷ "Malte" ∷ "Especiarias" ∷ "Terroso" ∷ "Cítrico" ∷ "Torrado" ∷ []

abbrev pub color_values : List String
color_values = "Clara" ∷ "Âmbar" ∷ "Marrom" ∷ "Escura" ∷ "Preta" ∷ []

abbrev pub body_values : List String
body_values = "Leve" ∷ "Médio" ∷ "Encorpado" ∷ []

abbrev pub carbonation_values : List String
carbonation_values = "Baixa" ∷ "Média" ∷ "Alta" ∷ "Natural" ∷ "Forçada" ∷ []

abbrev pub finish_values : List String
finish_values = "Seco" ∷ "Doce" ∷ "Amargo" ∷ "Limpo" ∷ "Persistente" ∷ []

-- `isOneOf`
unfoldable pub is_one_of : List String → String → Bool
is_one_of [] v = false
is_one_of (x ∷ xs) v = str_eq x v || is_one_of xs v

unfoldable pub is_flavor : String → Bool
is_flavor = is_one_of flavor_values

unfoldable pub is_aroma : String → Bool
is_aroma = is_one_of aroma_values

unfoldable pub is_color : String → Bool
is_color = is_one_of color_values

unfoldable pub is_body : String → Bool
is_body = is_one_of body_values

unfoldable pub is_carbonation : String → Bool
is_carbonation = is_one_of carbonation_values

unfoldable pub is_finish : String → Bool
is_finish = is_one_of finish_values

-- `sort.Strings`
unfoldable pub insert_sorted : String → List String → List String
insert_sorted x [] = x ∷ []
insert_sorted x (y ∷ ys) =
    let rest = insert_sorted x ys in if is_le (compare x y) then x ∷ y ∷ ys else y ∷ rest

unfoldable pub sort_strings : List String → List String
unfolding insert_sorted
sort_strings [] = []
sort_strings (x ∷ xs) = insert_sorted x (sort_strings xs)

pub record EnumValues : Type 0 where
  pub flavor : List String
  pub aroma : List String
  pub color : List String
  pub body : List String
  pub carbonation : List String
  pub finish : List String

-- `EnumValues`: each allowlist, sorted.
unfoldable pub enum_values : EnumValues
enum_values = record {
  flavor = sort_strings flavor_values;
  aroma = sort_strings aroma_values;
  color = sort_strings color_values;
  body = sort_strings body_values;
  carbonation = sort_strings carbonation_values;
  finish = sort_strings finish_values;
}

is_one_of-insert_sorted :
    (x : String) (xs : List String) (v : String)
    → is_one_of (insert_sorted x xs) v ≡ (str_eq x v || is_one_of xs v)
unfolding is_one_of insert_sorted
is_one_of-insert_sorted x [] v = refl
is_one_of-insert_sorted x (y ∷ ys) v = ground (arith, is_one_of-insert_sorted x ys v)

is_one_of-sort_strings :
    (xs : List String) (v : String) → is_one_of (sort_strings xs) v ≡ is_one_of xs v
unfolding is_one_of sort_strings
is_one_of-sort_strings [] v = refl
is_one_of-sort_strings (x ∷ xs) v =
    rw (is_one_of-insert_sorted x (sort_strings xs) v, is_one_of-sort_strings xs v)

-- The endpoint of the enums lists exactly the values that the validation accepts, for each enum.
pub enum_values-accepted :
    (v : String)
    → (is_one_of enum_values.flavor v ≡ is_flavor v)
      × (is_one_of enum_values.aroma v ≡ is_aroma v)
      × (is_one_of enum_values.color v ≡ is_color v)
      × (is_one_of enum_values.body v ≡ is_body v)
      × (is_one_of enum_values.carbonation v ≡ is_carbonation v)
      × (is_one_of enum_values.finish v ≡ is_finish v)
unfolding enum_values is_flavor is_aroma is_color is_body is_carbonation is_finish
enum_values-accepted v = (
  is_one_of-sort_strings flavor_values v,
  is_one_of-sort_strings aroma_values v,
  is_one_of-sort_strings color_values v,
  is_one_of-sort_strings body_values v,
  is_one_of-sort_strings carbonation_values v,
  is_one_of-sort_strings finish_values v,
)

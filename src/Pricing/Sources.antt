-- ===== src/Pricing/Sources.antt =====
-- src/glip/pricing/sources.py: the registry of price sources and the roles that each may publish.
use arquitech_glip_premium_b.Prelude.{
  Bool, not, none, some, List, [], ◌∷◌, if◌then◌else◌, find?, all, Result, ok, err, Error, failure,
  Text, codes, same_text, one_of, is_empty, strip, lower, upper,
}

abbrev pub role_unit_price : Text
role_unit_price = codes "UNIT_PRICE"

abbrev pub role_composition_reference : Text
role_composition_reference = codes "COMPOSITION_REFERENCE"

abbrev pub role_benchmark : Text
role_benchmark = codes "BENCHMARK"

abbrev pub role_fee_reference : Text
role_fee_reference = codes "FEE_REFERENCE"

abbrev pub role_realized_cost : Text
role_realized_cost = codes "REALIZED_COST"

abbrev pub role_market_quote : Text
role_market_quote = codes "MARKET_QUOTE"

unfoldable pub valid_roles : List Text
valid_roles =
    role_unit_price ∷ role_composition_reference ∷ role_benchmark ∷ role_fee_reference
    ∷ role_realized_cost ∷ role_market_quote ∷ []

unfoldable pub valid_source_statuses : List Text
valid_source_statuses =
    codes "valid" ∷ codes "partial" ∷ codes "unavailable" ∷ codes "human_review_required" ∷ []

unfoldable pub detailed_cost_roles : List Text
detailed_cost_roles = role_unit_price ∷ role_market_quote ∷ role_realized_cost ∷ []

-- `PriceSourceAdapter`, without the status texts of the manifest.
pub record PriceSourceAdapter : Type 0 where
  pub key : Text
  pub provider : Text
  pub publisher : Text
  pub allowed_roles : List Text

-- `dict.fromkeys(...)`: the first occurrence of each text, in order.
unfoldable pub distinct : List Text → List Text → List Text
distinct seen [] = []
distinct seen (x ∷ xs) =
    let kept = x ∷ distinct (x ∷ seen) xs in
    let dropped = distinct seen xs in if one_of x seen then dropped else kept

unfoldable pub normalized_roles : List Text → List Text
normalized_roles [] = []
normalized_roles (x ∷ xs) =
    let rest = normalized_roles xs in if is_empty (strip x) then rest else upper (strip x) ∷ rest

unfoldable pub validate_roles : PriceSourceAdapter → List Text → Result Error (List Text)
validate_roles a roles =
    let normalized = distinct [] (normalized_roles roles) in
    elim normalized [
      | [] ↦ err (failure "PRICE_SOURCE_ROLE_REQUIRED")
      | r ∷ rs ↦
          if not (all (λ x. one_of x valid_roles) (r ∷ rs))
          then err (failure "PRICE_SOURCE_ROLE_UNKNOWN")
          else if not (all (λ x. one_of x a.allowed_roles) (r ∷ rs))
          then err (failure "PRICE_SOURCE_ROLE_NOT_ALLOWED")
          else ok (r ∷ rs)
    ]

abbrev adapter : Text → Text → Text → List Text → PriceSourceAdapter
adapter key provider publisher roles = record {
  key = key;
  provider = provider;
  publisher = publisher;
  allowed_roles = roles;
}

-- `REGISTRY`
unfoldable pub registry : List PriceSourceAdapter
registry =
    adapter (codes "sidra_ibge") (codes "ibge_sidra") (codes "IBGE") (role_benchmark ∷ [])
    ∷ adapter (codes "sinapi_caixa") (codes "caixa_sinapi") (codes "CAIXA / IBGE")
        (role_unit_price ∷ role_composition_reference ∷ [])
    ∷ adapter (codes "sicro_dnit") (codes "dnit_sicro") (codes "DNIT")
        (role_unit_price ∷ role_composition_reference ∷ [])
    ∷ adapter (codes "sinduscon_regional") (codes "sinduscon_regional") (codes "Sinduscon regional")
        (role_benchmark ∷ [])
    ∷ adapter (codes "supplier_quote") (codes "supplier_quote") (codes "Fornecedor aprovado")
        (role_market_quote ∷ [])
    ∷ adapter (codes "glip_historical") (codes "glip_historical") (codes "GLIP")
        (role_realized_cost ∷ [])
    ∷ adapter (codes "cau_fee_reference") (codes "cau_reference") (codes "CAU")
        (role_fee_reference ∷ [])
    ∷ []

unfoldable pub registry_get : Text → Result Error PriceSourceAdapter
registry_get key = elim (find? (λ a. same_text a.key (lower (strip key))) registry) [
  | none ↦ err (failure "PRICE_SOURCE_UNKNOWN")
  | some a ↦ ok a
]

unfoldable pub detailed_cost_role_allowed : Text → Bool
detailed_cost_role_allowed role = one_of (upper role) detailed_cost_roles

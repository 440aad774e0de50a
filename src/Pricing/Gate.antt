-- ===== src/Pricing/Gate.antt =====
-- The checks that the operations of src/glip/pricing/service.py share.
use arquitech_glip_premium_b.Prelude.{
  ℕ, zero, suc, ◌+◌, ◌*◌, ◌/◌, Bool, not, Option, none, some, List, [], ◌∷◌, Result, ok, err, Error,
  failure, Text, codes, one_of, strip, lower, ℤ, pos, negsuc, String,
}
use arquitech_glip_premium_b.Prelude.Results.{refuse_if}

unfoldable pub financial_approver_roles : List Text
financial_approver_roles = codes "owner" ∷ []

abbrev pub is_financial_approver : Text → Bool
is_financial_approver role = one_of (lower (strip role)) financial_approver_roles

-- `_require_financial_approver`
unfoldable pub require_financial_approver : Text → Result Error (Unit {0})
require_financial_approver role =
    refuse_if (not (is_financial_approver role)) (failure "FINANCIAL_APPROVER_REQUIRED")

-- `_positive_decimal`, on a count of units of a power of ten, whichever it is: `none` is a text that
-- `Decimal` refuses, or one that is not finite.
unfoldable pub positive_decimal : Option ℤ → String → Result Error ℕ
positive_decimal none code = err (failure code)
positive_decimal (some (negsuc n)) code = err (failure code)
positive_decimal (some (pos zero)) code = err (failure code)
positive_decimal (some (pos (suc n))) code = ok (suc n)

unfoldable pub eligible_quantity_provenance : List Text
eligible_quantity_provenance =
    codes "authoritative_ifc"
    ∷ codes "geometry_derived"
    ∷ codes "cad_mapped"
    ∷ codes "manual_approved"
    ∷ []

-- `OFFICIAL_SOURCE_CONTRACTS.keys()`
unfoldable pub official_source_keys : List Text
official_source_keys =
    codes "sidra_ibge" ∷ codes "sinapi_caixa" ∷ codes "sicro_dnit" ∷ codes "sinduscon_regional" ∷ []

unfoldable pub server_verified_source_keys : List Text
server_verified_source_keys =
    codes "cau_fee_reference" ∷ codes "glip_historical" ∷ official_source_keys

unfoldable pub manual_approvable_source_keys : List Text
manual_approvable_source_keys = codes "supplier_quote" ∷ []

-- `(n / d).quantize(Decimal("1"), rounding=ROUND_HALF_UP)` for n and d that are not negative.
unfoldable pub round_half_up : ℕ → ℕ → ℕ
round_half_up n d = (2 * n + d) / (2 * d)

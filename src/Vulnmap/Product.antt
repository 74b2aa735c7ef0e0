-- ===== src/Vulnmap/Product.antt =====
-- internal/product/product.go and the issue types of domain/vulnmap/issues.go.
use khulnasoft_lab_vulnmap_l.Prelude.{
  Text, codes, text_eq, text_eq_iff, Bool, true, false, ◌≡◌, ◌↔◌, arith,
}

-- `Product` is a string. The four named products and the empty string are constructors of their
-- own; `named` is any other string.
pub data Product : Type 0 where
  open_source code infrastructure_as_code container unknown : Product
  named : Text → Product

abbrev pub product_text : Product → Text
product_text open_source = codes "Vulnmap Open Source"
product_text code = codes "Vulnmap Code"
product_text infrastructure_as_code = codes "Vulnmap IaC"
product_text container = codes "Vulnmap Container"
product_text unknown = codes ""
product_text (named s) = s

unfoldable pub product_eq : Product → Product → Bool
product_eq open_source open_source = true
product_eq code code = true
product_eq infrastructure_as_code infrastructure_as_code = true
product_eq container container = true
product_eq unknown unknown = true
product_eq (named s) (named t) = text_eq s t
product_eq _ _ = false

pub product_eq_iff : (p q : Product) → (product_eq p q ≡ true) ↔ (p ≡ q)
unfolding product_eq
product_eq_iff open_source q = ground arith
product_eq_iff code q = ground arith
product_eq_iff infrastructure_as_code q = ground arith
product_eq_iff container q = ground arith
product_eq_iff unknown q = ground arith
product_eq_iff (named s) (named t) = ground (arith, text_eq_iff s t)
product_eq_iff (named s) _ = ground arith

-- `ToProductCodename`
unfoldable pub to_product_codename : Product → Text
to_product_codename open_source = codes "oss"
to_product_codename code = codes "code"
to_product_codename infrastructure_as_code = codes "iac"
to_product_codename _ = codes ""

-- `FilterableIssueType` is a string; `none_type` is the empty one.
pub data FilterableIssueType : Type 0 where
  open_source_type code_quality_type code_security_type : FilterableIssueType
  infrastructure_as_code_type container_type none_type : FilterableIssueType

unfoldable pub filterable_eq : FilterableIssueType → FilterableIssueType → Bool
filterable_eq open_source_type open_source_type = true
filterable_eq code_quality_type code_quality_type = true
filterable_eq code_security_type code_security_type = true
filterable_eq infrastructure_as_code_type infrastructure_as_code_type = true
filterable_eq container_type container_type = true
filterable_eq none_type none_type = true
filterable_eq _ _ = false

pub filterable_eq_iff : (s t : FilterableIssueType) → (filterable_eq s t ≡ true) ↔ (s ≡ t)
unfolding filterable_eq
filterable_eq_iff s t = ground arith

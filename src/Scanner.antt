-- ===== src/Scanner.antt =====
-- domain/vulnmap/scanner.go: the scanner that runs the product scanners side by side, with what it
-- asks of them apart from a scan, and what it announces. A product scanner is known by its interface;
-- what it finds is left open.
pub mod Goroutines
pub mod Races
pub mod Completed
pub mod Lost
pub mod Progress
pub mod InlineValues
pub mod Tests
use khulnasoft_lab_vulnmap_l.Prelude.{
  ℕ, suc, Text, Bool, true, false, not, ◌||◌, ◌≡◌, ◌≢◌, List, [], ◌∷◌, ◌++◌, map, Option, none,
  some, if◌then◌else◌,
}
use khulnasoft_lab_vulnmap_l.Externals.{Externals}
use khulnasoft_lab_vulnmap_l.Vulnmap.Range.{Range}
use khulnasoft_lab_vulnmap_l.Vulnmap.Product.{
  Product, open_source, code, infrastructure_as_code, product_eq,
}
use khulnasoft_lab_vulnmap_l.Config.{Config}
use khulnasoft_lab_vulnmap_l.ScanNotifier.{send_in_progress}
use khulnasoft_lab_vulnmap_l.Folder.{Folder, ScanData, Effect, scan_message}
use khulnasoft_lab_vulnmap_l.Folder.Scan.{process_results}

-- `InlineValue`
pub record InlineValue : Type 0 where
  pub path : Text
  pub range : Range
  pub text : Text

-- The methods of a product scanner that need no scan. One that is an `InlineValueProvider` has the
-- function, where `none` is its error.
pub record ProductScanner : Type 0 where
  pub product : Product
  pub is_enabled : Bool
  pub get_inline_values : Option (Text → Range → Option (List InlineValue))

-- `ux.AnalysisType`
pub data AnalysisType : Type 0 where
  analysis_of_iac analysis_of_oss analysis_of_quality analysis_of_security : AnalysisType

pub data ScanEffect : Type 0 where
  -- `analytics.AnalysisIsTriggered`
  analysis_is_triggered : List AnalysisType → ScanEffect
  -- what the folder and the scan notifier do
  folder_effect : Effect → ScanEffect
  -- `notifier.Send(lsp.InlineValueRefresh{})`, `notifier.Send(lsp.CodeLensRefresh{})`
  inline_value_refresh code_lens_refresh : ScanEffect

-- The value of a provider's answer that `GetInlineValues` appends.
unfoldable pub values_of : Option (List InlineValue) → List InlineValue
values_of none = []
values_of (some vs) = vs

abbrev pub answer_of : Text → Range → ProductScanner → Option (List InlineValue)
answer_of path r s = elim s.get_inline_values [ none ↦ some [] | some get ↦ get path r ]

-- `GetInlineValues`: the loop's own `err` hides the one that is returned, which stays nil.
unfoldable pub get_inline_values :
    List ProductScanner → Text → Range → List InlineValue × Option Text
unfolding values_of
get_inline_values [] path r = ([], none)
get_inline_values (s ∷ ss) path r =
    let (later, err) = get_inline_values ss path r in (values_of (answer_of path r s) ++ later, err)

-- `ClearInlineValues`: the providers that are told to clear the path, by their products.
unfoldable pub clear_inline_values_of : List ProductScanner → Text → List (Product × Text)
clear_inline_values_of [] path = []
clear_inline_values_of (s ∷ ss) path =
    let rest = clear_inline_values_of ss path in
    elim s.get_inline_values [ none ↦ rest | some get ↦ (s.product, path) ∷ rest ]

-- The analysis types of one enabled scanner.
unfoldable pub product_analysis_types : Config → Product → List AnalysisType
product_analysis_types c infrastructure_as_code = analysis_of_iac ∷ []
product_analysis_types c open_source = analysis_of_oss ∷ []
product_analysis_types c code =
    (if c.code_quality_enabled || c.code_enabled then analysis_of_quality ∷ [] else [])
    ++ (if c.code_security_enabled || c.code_enabled then analysis_of_security ∷ [] else [])
product_analysis_types c _ = []

-- `getEnabledAnalysisTypes`
unfoldable pub get_enabled_analysis_types : Config → List ProductScanner → List AnalysisType
unfolding product_analysis_types
get_enabled_analysis_types c [] = []
get_enabled_analysis_types c (s ∷ ss) =
    (if s.is_enabled then product_analysis_types c s.product else [])
    ++ get_enabled_analysis_types c ss

-- The products of the goroutines that `Scan` starts.
unfoldable pub enabled_products_of : List ProductScanner → List Product
enabled_products_of [] = []
enabled_products_of (s ∷ ss) =
    let rest = enabled_products_of ss in if s.is_enabled then s.product ∷ rest else rest

abbrev pub announcement : Text → List AnalysisType → List ScanEffect
announcement folder_path [] = []
announcement folder_path (t ∷ ts) =
    analysis_is_triggered (t ∷ ts)
    ∷ map folder_effect (map scan_message (send_in_progress folder_path))

abbrev pub refreshes : List ScanEffect
refreshes = inline_value_refresh ∷ code_lens_refresh ∷ []

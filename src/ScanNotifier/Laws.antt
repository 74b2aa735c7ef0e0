-- ===== src/ScanNotifier/Laws.antt =====
-- What the scan messages hold.
use khulnasoft_lab_vulnmap_l.Prelude.{
  Text, Bool, true, false, ◌≡◌, refl, ap, ◌∙◌, List, [], ◌∷◌, map, arith, if◌then◌else◌, ◌&&◌,
}
use khulnasoft_lab_vulnmap_l.Externals.{Externals}
use khulnasoft_lab_vulnmap_l.Vulnmap.Product.{Product, open_source, code, infrastructure_as_code}
use khulnasoft_lab_vulnmap_l.Vulnmap.Issue.{Issue, AdditionalData, code_data, oss_data, iac_data}
use khulnasoft_lab_vulnmap_l.Lsp.{VulnmapScanParams, ScanIssue}
use khulnasoft_lab_vulnmap_l.ScanNotifier.{
  is_enabled_product, enabled_product_issues, append_oss_issues, append_iac_issues,
  append_code_issues, scan_issues_for, send_success_message, send_success,
}

-- The issue's data is of the kind that the product's message reports.
abbrev pub carries : Product → AdditionalData → Bool
carries open_source (oss_data d) = true
carries infrastructure_as_code (iac_data d) = true
carries code (code_data d) = true
carries _ _ = false

-- An issue of one of the three products with a message of their own.
abbrev pub reported_product : Product → Bool
reported_product open_source = true
reported_product infrastructure_as_code = true
reported_product code = true
reported_product _ = false

-- The files of the issues that a message for the product `p` reports, in order.
abbrev pub reported_files : Product → List Issue → List Text
reported_files p [] = []
reported_files p (i ∷ is) =
    let rest = reported_files p is in
    if reported_product i.product && carries p i.additional_data
    then i.affected_file_path ∷ rest
    else rest

abbrev files : List ScanIssue → List Text
files issues = map (λ s. s.file_path) issues

is_enabled-reported : (p : Product) → is_enabled_product p ≡ reported_product p
unfolding is_enabled_product
is_enabled-reported open_source = refl
is_enabled-reported p = refl

abbrev paths_that_carry : Product → List Issue → List Text
paths_that_carry p [] = []
paths_that_carry p (i ∷ is) =
    let rest = paths_that_carry p is in
    if carries p i.additional_data then i.affected_file_path ∷ rest else rest

iac_files :
    (is : List Issue) → files (append_iac_issues is) ≡ paths_that_carry infrastructure_as_code is
unfolding append_iac_issues
iac_files [] = refl
iac_files (i ∷ is) = ground (arith, iac_files is)

code_files : (is : List Issue) → files (append_code_issues is) ≡ paths_that_carry code is
unfolding append_code_issues
code_files [] = refl
code_files (i ∷ is) = ground (arith, code_files is)

oss_files :
    (x : Externals) (is : List Issue)
    → files (append_oss_issues x is) ≡ paths_that_carry open_source is
unfolding append_oss_issues
oss_files x [] = refl
oss_files x (i ∷ is) = ground (arith, oss_files x is)

enabled_then_carries :
    (p : Product) (is : List Issue)
    → paths_that_carry p (enabled_product_issues is) ≡ reported_files p is
unfolding enabled_product_issues
enabled_then_carries p [] = refl
enabled_then_carries p (i ∷ is) =
    ground (arith, is_enabled-reported i.product, enabled_then_carries p is)

scan_issues_files :
    (x : Externals) (p : Product) (is : List Issue)
    → reported_product p ≡ true
    → files (scan_issues_for x p is) ≡ paths_that_carry p is
unfolding scan_issues_for
scan_issues_files x open_source is h = oss_files x is
scan_issues_files x code is h = code_files is
scan_issues_files x infrastructure_as_code is h = iac_files is
scan_issues_files x p is h = cc

-- The files that the messages name, a list for each message.
abbrev pub message_files : List VulnmapScanParams → List (List Text)
message_files ms = map (λ m. files m.issues) ms

-- `SendSuccess` sends one message for Vulnmap Code, Open Source or IaC, and none for any other
-- product. The message reports, in order, the issues that are of one of the three products and
-- carry the data of the reported product.
pub send_success-files :
    (x : Externals) (p : Product) (folder_path : Text) (is : List Issue)
    → message_files (send_success x p folder_path is)
      ≡ (if reported_product p then reported_files p is ∷ [] else [])
unfolding send_success send_success_message
send_success-files x open_source folder_path is =
    ap (λ fs. fs ∷ [])
      (scan_issues_files x open_source (enabled_product_issues is) refl
        ∙ enabled_then_carries open_source is)
send_success-files x code folder_path is =
    ap (λ fs. fs ∷ [])
      (scan_issues_files x code (enabled_product_issues is) refl ∙ enabled_then_carries code is)
send_success-files x infrastructure_as_code folder_path is =
    ap (λ fs. fs ∷ [])
      (scan_issues_files x infrastructure_as_code (enabled_product_issues is) refl
        ∙ enabled_then_carries infrastructure_as_code is)
send_success-files x p folder_path is = refl

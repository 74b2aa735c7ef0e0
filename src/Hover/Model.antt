-- ===== src/Hover/Model.antt =====
-- domain/ide/hover/model.go. The context of a hover is `any`: an issue, or something else.
use khulnasoft_lab_vulnmap_l.Prelude.{Text, List, Option}
use khulnasoft_lab_vulnmap_l.Vulnmap.Range.{Range}
use khulnasoft_lab_vulnmap_l.Vulnmap.Issue.{Issue}

pub record Hover : Type 0 where
  pub id : Text
  pub range : Range
  pub message : Text
  pub context : Option Issue

pub record DocumentHovers : Type 0 where
  pub path : Text
  pub hovers : List Hover

-- ===== src/Vulnmap/Range.antt =====
-- domain/vulnmap/range.go. Lines and characters are zero-based, so they are natural numbers here.
pub mod Laws
use khulnasoft_lab_vulnmap_l.Prelude.{
  ℕ, Bool, true, false, ltb, leb, ◌==◌, ◌&&◌, ◌||◌, if◌then◌else◌,
}

pub record Position : Type 0 where
  pub line : ℕ
  pub character : ℕ

pub record Range : Type 0 where
  pub start : Position
  pub end : Position

-- `Contains`: the four early returns, in the order of the source.
unfoldable pub contains : Range → Range → Bool
contains r other =
    if ltb other.start.line r.start.line || ltb other.end.line r.start.line
    then false
    else if ltb r.end.line other.start.line || ltb r.end.line other.end.line
    then false
    else if other.start.line == r.start.line && ltb other.start.character r.start.character
    then false
    else if other.end.line == r.end.line && ltb r.end.character other.end.character
    then false
    else true

-- `Overlaps`: the tests that follow `Contains`, in the order of the source.
overlaps_rest : Range → Range → Bool
overlaps_rest r other =
    if ltb other.end.line r.start.line
    then false
    else if ltb r.end.line other.start.line
    then false
    else if leb other.end.line r.start.line && ltb other.end.character r.end.character
    then false
    else if leb other.end.line r.end.line && ltb r.end.character other.start.character
    then false
    else true

unfoldable pub overlaps : Range → Range → Bool
unfolding overlaps_rest
overlaps r other = if contains r other then true else overlaps_rest r other

-- ===== src/Domain.antt =====
-- What the agents exchange: packages/core/legacydoc_core/domain.py, with the categories and
-- severities of packages/core/legacydoc_core/models.py. `confidence` is a share of 1000.
use legacy_doc.Common.{ℕ, Bool, Option, List, String}

pub data FindingCategory : Type 0 where
  complexity maintainability correctness security performance testing documentation :
      FindingCategory

pub data Severity : Type 0 where
  info low medium high critical : Severity

pub record Parameter : Type 0 where
  pub name : String
  pub type : Option String
  pub description : Option String
  pub optional : Bool
  pub default : Option String

pub record SymbolDoc : Type 0 where
  pub name : String
  pub kind : String
  pub signature : String
  pub language : String
  pub line_start : ℕ
  pub line_end : ℕ
  pub summary : String
  pub description : String
  pub parameters : List Parameter
  pub return_type : Option String
  pub return_description : Option String
  pub raises : List String
  pub side_effects : List String
  pub complexity_estimate : Option ℕ
  pub parent : Option String

pub record FindingDraft : Type 0 where
  pub category : FindingCategory
  pub severity : Severity
  pub title : String
  pub detail : String
  pub suggestion : Option String
  pub symbol_name : Option String
  pub line_start : Option ℕ
  pub line_end : Option ℕ
  pub confidence : ℕ

pub record FileDocumentation : Type 0 where
  pub path : String
  pub language : String
  pub summary : String
  pub symbols : List SymbolDoc
  pub findings : List FindingDraft

pub record VerifierOutput : Type 0 where
  pub approved : Bool
  pub rejected_symbols : List String
  pub audit_notes : String
  pub feedback_message : String

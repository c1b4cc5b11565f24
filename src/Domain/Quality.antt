-- ===== src/Domain/Quality.antt =====
-- domain/quality.py: how good and how fresh a source's data is.
use portfolio_manager.Base.{
  Bool, List, Option, Result, Text, for_some, length, matches_key, not, ok, raise_if, set_of,
  text_eq, value_error, ◌==◌, ◌>>=◌, ◌>>◌,
}
use portfolio_manager.Domain.Temporal.{Datetime, TimeRange, as_utc}

pub data Authority : Type 0 where
  authoritative reconstructed estimated : Authority

pub data Completeness : Type 0 where
  complete partial unknown : Completeness

pub data SettlementState : Type 0 where
  not_applicable pending settled unknown : SettlementState

pub record QualityIssue : Type 0 where
  pub code : Text

abbrev pub issue_eq : QualityIssue → QualityIssue → Bool
issue_eq a b = text_eq a.code b.code

unfoldable pub quality_issue_post_init : QualityIssue → Result QualityIssue
quality_issue_post_init self = do
  raise_if (not (matches_key self.code))
      (value_error "quality issue code must be a stable lowercase identifier")
  ok self

pub record DataQuality : Type 0 where
  pub authority : Authority
  pub completeness : Completeness
  pub observed_at : Datetime
  pub data_through : Option Datetime
  pub coverage : Option TimeRange
  pub settlement : SettlementState
  pub issues : List QualityIssue

unfoldable pub data_quality_post_init : DataQuality → Result DataQuality
data_quality_post_init self = do
  observed_at ← as_utc self.observed_at "observed_at"
  data_through ← for_some self.data_through (λ d. as_utc d "data_through")
  raise_if (not (length (set_of issue_eq self.issues) == length self.issues))
      (value_error "quality issue codes must not be duplicated")
  ok (record self { observed_at = observed_at; data_through = data_through })

-- ===== src/Domain/Identifiers.antt =====
-- domain/identifiers.py: identifiers, told apart by a tag that they do not store. A UUID is the
-- number of its 128 bits.
pub mod Written
use portfolio_manager.Base.{Bool, ℕ, ◌==◌, ltb}

pub data TenantTag : Type 0 where
  tenant_tag : TenantTag

pub data UserTag : Type 0 where
  user_tag : UserTag

pub data BrokerConnectionTag : Type 0 where
  broker_connection_tag : BrokerConnectionTag

pub data BrokerAccountTag : Type 0 where
  broker_account_tag : BrokerAccountTag

pub data ExternalCashAccountTag : Type 0 where
  external_cash_account_tag : ExternalCashAccountTag

pub data InstitutionTag : Type 0 where
  institution_tag : InstitutionTag

pub data InstrumentTag : Type 0 where
  instrument_tag : InstrumentTag

pub data ListingTag : Type 0 where
  listing_tag : ListingTag

pub data SourceRecordTag : Type 0 where
  source_record_tag : SourceRecordTag

pub data CollectionRunTag : Type 0 where
  collection_run_tag : CollectionRunTag

pub data RawArtifactTag : Type 0 where
  raw_artifact_tag : RawArtifactTag

pub data ActivityTag : Type 0 where
  activity_tag : ActivityTag

pub data TransferTag : Type 0 where
  transfer_tag : TransferTag

pub data ObservationTag : Type 0 where
  observation_tag : ObservationTag

pub data SnapshotTag : Type 0 where
  snapshot_tag : SnapshotTag

pub data ReportTag : Type 0 where
  report_tag : ReportTag

pub record Identifier (EntityTag : Type 0) : Type 0 where
  pub value : ℕ

-- The `==` of the dataclass.
abbrev pub id_eq : {EntityTag : Type 0} → Identifier EntityTag → Identifier EntityTag → Bool
id_eq a b = a.value == b.value

-- Its order: UUIDs are compared as numbers.
abbrev pub id_lt : {EntityTag : Type 0} → Identifier EntityTag → Identifier EntityTag → Bool
id_lt a b = ltb a.value b.value

-- `uuid4()` is the parameter: a draw that changes the world.
abbrev pub new : {S EntityTag : Type 0} → (S → ℕ × S) → S → Identifier EntityTag × S
new uuid4 s = let (value, s') = uuid4 s in (record { value = value }, s')

abbrev pub TenantId : Type 0
TenantId = Identifier TenantTag

abbrev pub UserId : Type 0
UserId = Identifier UserTag

abbrev pub BrokerConnectionId : Type 0
BrokerConnectionId = Identifier BrokerConnectionTag

abbrev pub BrokerAccountId : Type 0
BrokerAccountId = Identifier BrokerAccountTag

abbrev pub ExternalCashAccountId : Type 0
ExternalCashAccountId = Identifier ExternalCashAccountTag

abbrev pub InstitutionId : Type 0
InstitutionId = Identifier InstitutionTag

abbrev pub InstrumentId : Type 0
InstrumentId = Identifier InstrumentTag

abbrev pub ListingId : Type 0
ListingId = Identifier ListingTag

abbrev pub SourceRecordId : Type 0
SourceRecordId = Identifier SourceRecordTag

abbrev pub CollectionRunId : Type 0
CollectionRunId = Identifier CollectionRunTag

abbrev pub RawArtifactId : Type 0
RawArtifactId = Identifier RawArtifactTag

abbrev pub ActivityId : Type 0
ActivityId = Identifier ActivityTag

abbrev pub TransferId : Type 0
TransferId = Identifier TransferTag

abbrev pub ObservationId : Type 0
ObservationId = Identifier ObservationTag

abbrev pub SnapshotId : Type 0
SnapshotId = Identifier SnapshotTag

abbrev pub ReportId : Type 0
ReportId = Identifier ReportTag

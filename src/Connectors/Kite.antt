-- ===== src/Connectors/Kite.antt =====
-- connectors/zerodha.py: Kite's endpoints and payloads, and what the adapter says of itself.
use portfolio_manager.Application.{
  Bytes, Capability, ConnectorDescriptor, capability_value, connector_descriptor_post_init,
}
use portfolio_manager.Base.{
  List, Option, Result, Text, [], codes, if◌then◌else◌, is_empty, none, not_trimmed, ok, raise_if,
  some, text_lt, value_error, ◌>>◌, ◌∷◌,
}
use portfolio_manager.Domain.Temporal.{Datetime}

pub data KiteEndpoint : Type 0 where
  holdings positions funds orders trades instruments : KiteEndpoint

-- `endpoint.value`
unfoldable pub endpoint_value : KiteEndpoint → Text
endpoint_value KiteEndpoint.holdings = codes "holdings"
endpoint_value KiteEndpoint.positions = codes "positions"
endpoint_value KiteEndpoint.funds = codes "funds"
endpoint_value KiteEndpoint.orders = codes "orders"
endpoint_value KiteEndpoint.trades = codes "trades"
endpoint_value KiteEndpoint.instruments = codes "instruments"

pub record KitePayload : Type 0 where
  pub body : Bytes
  pub media_type : Text
  pub source_at : Option Datetime

unfoldable pub kite_payload_post_init : KitePayload → Result KitePayload
kite_payload_post_init self = do
  raise_if (is_empty self.body) (value_error "Kite payload cannot be empty")
  raise_if (not_trimmed self.media_type)
      (value_error "Kite payload media type must be non-empty and trimmed")
  ok self

-- `_ENDPOINTS.get(capability)`
unfoldable pub endpoints_of : Capability → Option (List KiteEndpoint)
endpoints_of Capability.holdings = some (KiteEndpoint.holdings ∷ [])
endpoints_of Capability.positions = some (KiteEndpoint.positions ∷ [])
endpoints_of Capability.balances = some (KiteEndpoint.funds ∷ [])
endpoints_of Capability.activities = some (KiteEndpoint.orders ∷ KiteEndpoint.trades ∷ [])
endpoints_of Capability.instruments = some (KiteEndpoint.instruments ∷ [])
endpoints_of _ = none

abbrev pub connector_key : Text
connector_key = codes "zerodha.kite"

-- The class's `describe`, with the keys of `_ENDPOINTS` in their order.
unfoldable pub describe : Result ConnectorDescriptor
describe = connector_descriptor_post_init (record {
  key = connector_key;
  schema_version = codes "v1";
  capabilities =
      Capability.holdings ∷ Capability.positions ∷ Capability.balances ∷ Capability.activities
      ∷ Capability.instruments ∷ [];
})

-- `sorted(capabilities, key=lambda item: item.value)`
unfoldable pub insert_sorted : Capability → List Capability → List Capability
insert_sorted c [] = c ∷ []
insert_sorted c (d ∷ ds) =
    if text_lt (capability_value d) (capability_value c) then d ∷ insert_sorted c ds else c ∷ d ∷ ds

unfoldable pub sorted_capabilities : List Capability → List Capability
unfolding insert_sorted
sorted_capabilities [] = []
sorted_capabilities (c ∷ cs) = insert_sorted c (sorted_capabilities cs)

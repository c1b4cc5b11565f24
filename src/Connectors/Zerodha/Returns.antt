-- ===== src/Connectors/Zerodha/Returns.antt =====
-- connectors/zerodha.py: the return of `collect`.
use portfolio_manager.Base.Exec.{Exec, Returns, Returns-bind}
use portfolio_manager.Application.{Capability, capability_eq, AuthenticationState, Bytes, is_ready}
use portfolio_manager.Application.Collection.{
  CollectionResult, collection_result_post_init, CapabilityOutcome, CollectionRequest,
}
use portfolio_manager.Application.Laws.{capability_eq_iff}
use portfolio_manager.Base.{
  List, distinct, false, is_empty, length-set_of, map, ok, true, ◌≡◌, Text, [], is_empty-map,
  matches_digest, none, sym, ◌∙◌,
}
use portfolio_manager.Connectors.Kite.{KiteEndpoint, sorted_capabilities}
use portfolio_manager.Connectors.Zerodha.{Collected, KiteTransport, collect, collect_ready}
use portfolio_manager.Connectors.Zerodha.Outcomes.{Explained, collect_capabilities-Run}
use portfolio_manager.Connectors.Zerodha.Sorting.{
  distinct-sorted_capabilities, is_empty-sorted_capabilities,
}
use portfolio_manager.Connectors.Zerodha.Total.{IsGoodFetch, collect_capabilities-Returns}
use portfolio_manager.Domain.Temporal.{Datetime, as_utc}

result-ok :
    (cs : List Capability) (r : CollectionResult)
    → map (λ o. o.capability) r.outcomes ≡ cs
    → is_empty cs ≡ false
    → distinct capability_eq cs ≡ true
    → collection_result_post_init r ≡ ok r
unfolding collection_result_post_init
result-ok cs r e some_capability d =
    rw (length-set_of capability_eq capability_eq_iff, e, d)
      (rw (
        sym (is_empty-map (λ (o : CapabilityOutcome). o.capability) r.outcomes),
        e,
        some_capability,
      ))

-- What a collection promises of the result for a request.
abbrev pub Answers : CollectionRequest → CollectionResult → Type 0
Answers request result =
    (map (λ o. o.capability) result.outcomes ≡ sorted_capabilities request.capabilities)
    × Explained result.outcomes result.artifacts

-- A clock that gives an aware time, at any state of the world.
abbrev pub IsAware : Datetime → Type 0
IsAware at = (u : Datetime) × (as_utc at "retrieved_at" ≡ ok u)

module _ (sha256_hex : Bytes → Text)
    (hexdigest : (b : Bytes) → matches_digest (sha256_hex b) ≡ true) {S : Type 0}
    (transport : KiteTransport S)
    (fetches : (e : KiteEndpoint) (s : S) → IsGoodFetch (transport.fetch e s).0)
    (clock : Exec S Datetime) (ticks : (s : S) → Returns IsAware (clock s))
    (request : CollectionRequest) (some_capability : is_empty request.capabilities ≡ false)
    (each_once : distinct capability_eq request.capabilities ≡ true) where
  collect_ready-Returns :
      (s : S) → Returns (Answers request) (collect_ready sha256_hex transport clock request s)
  unfolding collect_ready
  collect_ready-Returns s = Returns-bind clock _ s (ticks s) λ at s1 (u, aware).
      let start : Collected = record {
        artifacts = [];
        outcomes = [];
        authentication_issue = none;
      } in
      let cs : List Capability = sorted_capabilities request.capabilities in
      let run =
        collect_capabilities-Returns sha256_hex hexdigest transport fetches at u aware cs start
          s1 in
      let added =
        collect_capabilities-Run sha256_hex transport at cs start run.value s1 run.world run.ends in
      let result : CollectionResult = record {
        artifacts = run.value.artifacts;
        outcomes = run.value.outcomes;
        next_checkpoint = none;
        coverage = none;
      } in
      let covers : map (λ (o : CapabilityOutcome). o.capability) result.outcomes ≡ cs =
        rw added.outcomes added.of_capabilities in
      let made : collection_result_post_init result ≡ ok result =
        result-ok cs result covers
          (is_empty-sorted_capabilities request.capabilities ∙ some_capability)
          (distinct-sorted_capabilities request.capabilities ∙ each_once) in
      record {
        value = result;
        world = run.world;
        ends = rw (run.ends, made);
        good = (covers, rw (added.outcomes, added.artifacts) added.explained);
      }

  -- Where the digest is 64 hexadecimal digits, the authentication is ready, the clock gives an aware
  -- time and every fetch gives a payload that its constructor accepts or raises a `ConnectorError`, a
  -- collection for a set of at least one capability returns. No failure of a fetch makes it raise: the
  -- result has one outcome for each capability, in the order of their names, and the outcomes tell
  -- which artifacts it holds.
  pub collect-Returns :
      (state : AuthenticationState) (s s1 : S)
      → transport.authentication_state s ≡ (ok state, s1)
      → is_ready state.status ≡ true
      → Returns (Answers request) (collect sha256_hex transport clock request s)
  unfolding collect
  collect-Returns state s s1 asked ready_now = rw (asked, ready_now) (collect_ready-Returns s1)

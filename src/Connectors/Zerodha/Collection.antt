-- ===== src/Connectors/Zerodha/Collection.antt =====
-- connectors/zerodha.py: `collect` as a whole, when it returns and when it raises.
use mathlib.Core.List.{Perm}
use portfolio_manager.Connectors.Zerodha.Sorting.{sorted-perm}
use portfolio_manager.Base.Exec.{Exec, >>=-returns}
use portfolio_manager.Application.{Bytes, is_ready, AuthenticationState, Capability}
use portfolio_manager.Application.Collection.{
  CollectionRequest, CollectionResult, collection_result_post_init,
}
use portfolio_manager.Base.{
  Bool-cases, Result, Text, [], ap, arith, inl, inr, map, none, ok, ◌≡◌, ConnectorFailureKind,
  codes, connector_error, err, false, matches_key, true, List, refl,
}
use portfolio_manager.Connectors.Kite.{sorted_capabilities}
use portfolio_manager.Connectors.Zerodha.{
  KiteTransport, collect, collect_capabilities, collect_ready, or_text,
}
use portfolio_manager.Connectors.Zerodha.Outcomes.{Explained, collect_capabilities-Run}
use portfolio_manager.Domain.Temporal.{Datetime}
use portfolio_manager.Application.Laws.{raise_connector_error-ne-ok, raise_connector_error_lem}
use portfolio_manager.Connectors.Http.Transport.{request}

result-inv : (r r' : CollectionResult) → collection_result_post_init r ≡ ok r' → r' ≡ r
unfolding collection_result_post_init
result-inv r r' h = ground arith

module _ (sha256_hex : Bytes → Text) {S : Type 0} (transport : KiteTransport S)
    (clock : Exec S Datetime) where
  collect_ready-Explained :
      (request : CollectionRequest) (result : CollectionResult) (s s' : S)
      → collect_ready sha256_hex transport clock request s ≡ (ok result, s')
      → (map (λ o. o.capability) result.outcomes ≡ sorted_capabilities request.capabilities)
        × Explained result.outcomes result.artifacts
  unfolding collect_ready
  collect_ready-Explained request result s s' h =
      let (at, s1, _, k1) = >>=-returns clock _ h in
      let (acc, s2, e2, k2) =
        >>=-returns
          (collect_capabilities sha256_hex transport at (sorted_capabilities request.capabilities)
            (record { artifacts = []; outcomes = []; authentication_issue = none }))
          _ k1 in
      let run = collect_capabilities-Run sha256_hex transport at _ _ acc s1 s2 e2 in
      let made : result ≡ record {
        artifacts = acc.artifacts;
        outcomes = acc.outcomes;
        next_checkpoint = none;
        coverage = none;
      } =
        result-inv _ result (ap (λ (p : Result CollectionResult × S). p.0) k2) in
      rw (made, run.outcomes, run.artifacts) (run.of_capabilities, run.explained)

  -- A collection that returns has one outcome for each requested capability, in the order of their
  -- names, and the outcomes tell which artifacts it holds: all of a capability's endpoints, some of
  -- them, or none.
  pub collect-Explained :
      (request : CollectionRequest) (result : CollectionResult) (s s' : S)
      → collect sha256_hex transport clock request s ≡ (ok result, s')
      → (map (λ o. o.capability) result.outcomes ≡ sorted_capabilities request.capabilities)
        × Explained result.outcomes result.artifacts
  unfolding collect
  collect-Explained request result s s' h =
      let (state, s1, _, k) = >>=-returns transport.authentication_state _ h in
      elim (Bool-cases (is_ready state.status)) [
        | inl is ↦ collect_ready-Explained request result s1 s' (rw is at k)
        | inr not_yet ↦ absurd (
            raise_connector_error-ne-ok ConnectorFailureKind.authentication _ none result
              (ap (λ (p : Result CollectionResult × S). p.0) (rw not_yet at k)))
      ]

  -- Where the transport is not ready, `collect` raises an authentication error with the reason that
  -- it was given, or a default for a missing or empty one, and fetches nothing: the world is as the
  -- question for the state left it.
  pub collect-not_ready :
      (request : CollectionRequest) (state : AuthenticationState) (s s' : S)
      → transport.authentication_state s ≡ (ok state, s')
      → is_ready state.status ≡ false
      → matches_key (or_text state.reason_code (codes "session.not_ready")) ≡ true
      → collect sha256_hex transport clock request s ≡ (
        err (
            connector_error ConnectorFailureKind.authentication
              (or_text state.reason_code (codes "session.not_ready"))
              none),
        s',
      )
  unfolding collect
  collect-not_ready request state s s' asked not_yet stable = rw (
    asked,
    not_yet,
    raise_connector_error_lem {A = CollectionResult} ConnectorFailureKind.authentication
        (or_text state.reason_code (codes "session.not_ready")) stable,
  )

  -- The order in which a request's capabilities are listed does not show: permuted, they give the
  -- same result or exception, and the same effects.
  pub collect-perm :
      (request : CollectionRequest) (cs : List Capability) (s : S)
      → Perm request.capabilities cs
      → collect sha256_hex transport clock (record request { capabilities = cs }) s
        ≡ collect sha256_hex transport clock request s
  unfolding collect collect_ready
  collect-perm request cs s p = rw (sorted-perm p) refl

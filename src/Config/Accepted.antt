-- ===== src/Config/Accepted.antt =====
-- Which configurations validate.
use llm_serving_performance.Prelude.Results.{err, Result, ok, ◌>>◌}
use llm_serving_performance.Prelude.{Option, refl, ◌↔◌, ◌≡◌}
use llm_serving_performance.Floats.{Floats}
use llm_serving_performance.Config.Validate.{validate}
use llm_serving_performance.Config.Valid.{IsValidConfig}
use llm_serving_performance.Config.Types.{Config}
use llm_serving_performance.Config.Text.{Text, Url}
use llm_serving_performance.Config.Sections.{
  endpoint_complete, endpoint_sound, limits_complete, limits_sound, load_iff, slo_complete,
  slo_sound, tokens_complete, tokens_sound, workload_iff,
}

-- The parts of a chain of checks that has passed.
module _ {E : Type 0} where
  both : {r s : Result E (Unit {0})} → (r >> s) ≡ ok tt → (r ≡ ok tt) × (s ≡ ok tt)
  both {r = ok tt} h = (refl, h)
  both {r = err e} h = cc

  chain : {r s : Result E (Unit {0})} → r ≡ ok tt → s ≡ ok tt → (r >> s) ≡ ok tt
  chain e f = rw e f

module _ (fl : Floats) (parse : Text → Option Url) (c : Config fl) where
  -- A configuration validates exactly if it has an endpoint with a plain URL and a name of its model,
  -- tokens within their ceilings, positive thresholds, the workload and the load of its modes with no
  -- setting of the other mode, and positive limits. A plain URL has http or https as its scheme, a
  -- host, and no user, query or fragment.
  pub validate_iff : (validate fl parse c ≡ ok tt) ↔ IsValidConfig fl parse c
  unfolding validate
  validate_iff = (
    λ h.
        let (endpoint, h1) = both h in
        let (tokens, h2) = both h1 in
        let (slo, h3) = both h2 in
        let (workload, h4) = both h3 in
        let (limits, load) = both h4 in
        record {
          endpoint = endpoint_sound fl parse c endpoint;
          tokens = tokens_sound fl parse c tokens;
          thresholds = slo_sound fl parse c slo;
          workload = (workload_iff fl parse c c.workload.mode).0 workload;
          limits = limits_sound fl parse c limits;
          load = (load_iff fl parse c.benchmark c.benchmark.mode).0 load;
        },
    λ v. chain (endpoint_complete fl parse c v.endpoint) (
        chain (tokens_complete fl parse c v.tokens) (
          chain (slo_complete fl parse c v.thresholds) (
            chain ((workload_iff fl parse c c.workload.mode).1 v.workload) (
              chain (limits_complete fl parse c v.limits)
                ((load_iff fl parse c.benchmark c.benchmark.mode).1 v.load))))),
  )

-- ===== src/Executor/Static.antt =====
-- `ValidateStatic`: the validation of a configuration and its admission; and `newSharedHTTPClient`.
-- The diagnostics of the machine are a parameter; they decide nothing.
use llm_serving_performance.Config.Valid.{IsValidConfig}
use llm_serving_performance.Prelude.Results.{err, >>=-ok, Result, ok, wrap_err, ◌>>◌}
use llm_serving_performance.Config.Validate.{validate, ConfigErr}
use llm_serving_performance.Prelude.Int.{◌<ℤ◌, ◌≤ℤ◌, leb_ℤ, ltb_ℤ, pos, ℤ}
use llm_serving_performance.Prelude.{arith, false, refl, Option, none, some, if◌then◌else◌, ◌≡◌}
use llm_serving_performance.Config.Accepted.{validate_iff}
use llm_serving_performance.Benchmark.Types.{
  LoadMode, closed_loop, other_mode, unset_mode, open_loop,
}
use llm_serving_performance.Benchmark.Admission.{
  admit_closed_loop, admit_open_loop, AdmissionDecision, AdmissionErr, AdmissionRequest, admit_run,
}
use llm_serving_performance.Floats.{Floats}
use llm_serving_performance.Config.Types.{Config}
use llm_serving_performance.Config.Text.{Text, Url}

pub data StaticErr : Type 0 where
  invalid_configuration : ConfigErr → StaticErr
  admission_rejected : AdmissionErr → StaticErr

module _ (fl : Floats) (parse : Text → Option Url) {D : Type 0} (diagnostics : D) where
  unfoldable pub admission_request : Config fl → AdmissionRequest fl
  admission_request c = record {
    mode = c.benchmark.mode;
    concurrency = c.benchmark.concurrency;
    requests = c.benchmark.requests;
    warmup_requests = c.benchmark.warmup_requests;
    request_rate = c.benchmark.open_loop.request_rate;
    duration = c.benchmark.open_loop.duration;
    max_in_flight = c.benchmark.open_loop.max_in_flight;
    max_concurrency = c.benchmark.safety.max_concurrency;
    max_requests = c.benchmark.safety.max_requests;
    max_request_rate = c.benchmark.safety.max_request_rate;
    max_in_flight_ceiling = c.benchmark.safety.max_in_flight;
  }

  unfoldable pub validate_static : Config fl → Result StaticErr (AdmissionDecision D)
  validate_static c = do
    wrap_err invalid_configuration (validate fl parse c)
    wrap_err admission_rejected (admit_run fl (admission_request c) diagnostics)

-- What `newSharedHTTPClient` sets of a transport.
pub record Transport : Type 0 where
  pub max_idle_conns : ℤ
  pub max_idle_conns_per_host : ℤ
  pub max_conns_per_host : ℤ

pub data ClientSetupErr : Type 0 where
  limit_not_positive unexpected_transport : ClientSetupErr

abbrev with_limit : Transport → ℤ → Transport
with_limit transport limit = record {
  max_idle_conns = if ltb_ℤ transport.max_idle_conns limit then limit else transport.max_idle_conns;
  max_idle_conns_per_host = limit;
  max_conns_per_host = limit;
}

abbrev clone_limited : Option Transport → ℤ → Result ClientSetupErr Transport
clone_limited none limit = err unexpected_transport
clone_limited (some transport) limit = ok (with_limit transport limit)

-- `newSharedHTTPClient`, with the default transport, which is `none` if it has another type.
unfoldable pub new_shared_http_client : Option Transport → ℤ → Result ClientSetupErr Transport
new_shared_http_client default_transport limit =
    if leb_ℤ limit (pos 0) then err limit_not_positive else clone_limited default_transport limit

-- A client whose connections to a host are limited, with room to keep them all while idle.
abbrev pub ServesWithin : ℤ → Result ClientSetupErr Transport → Type 0
ServesWithin limit (ok transport) =
    (limit ≤ℤ transport.max_idle_conns)
    × (transport.max_idle_conns_per_host ≡ limit)
    × (transport.max_conns_per_host ≡ limit)
ServesWithin limit (err e) = ⊥

idle_room :
    (transport : Transport) (limit : ℤ) → limit ≤ℤ (with_limit transport limit).max_idle_conns
idle_room transport limit = ground arith

new_shared_http_client-ServesWithin :
    (transport : Transport) (limit : ℤ)
    → pos 0 <ℤ limit
    → ServesWithin limit (new_shared_http_client (some transport) limit)
unfolding new_shared_http_client
new_shared_http_client-ServesWithin transport limit low =
    let admitted : leb_ℤ limit (pos 0) ≡ false = ground arith in
    rw admitted (idle_room transport limit, refl, refl)

module _ (fl : Floats) (parse : Text → Option Url) {D : Type 0} (diagnostics : D) where
  static_parts :
      (c : Config fl) (d : AdmissionDecision D)
      → validate_static fl parse diagnostics c ≡ ok d
      → (validate fl parse c ≡ ok tt)
        × (admit_run fl (admission_request fl parse diagnostics c) diagnostics ≡ ok d)
  unfolding validate_static
  static_parts c d h =
      let (u, valid, rest) = >>=-ok (wrap_err invalid_configuration (validate fl parse c)) _ h in
      (unwrap invalid_configuration (validate fl parse c) valid, unwrap admission_rejected _ rest)
    where
      unwrap :
          {E F A : Type 0} (f : E → F) {a : A} (r : Result E A) → wrap_err f r ≡ ok a → r ≡ ok a
      unwrap f (ok b) e = cc
      unwrap f (err x) e = cc

  closed_limit :
      (r : AdmissionRequest fl) (d : AdmissionDecision D)
      → (m : LoadMode) → r.mode ≡ m
      → admit_run fl r diagnostics ≡ ok d
      → pos 0 <ℤ d.transport_worker_limit
  unfolding admit_run admit_closed_loop admit_open_loop
  closed_limit r d closed_loop m h = ground arith
  closed_limit r d open_loop m h = ground arith
  closed_limit r d unset_mode m h = ground arith
  closed_limit r d (other_mode s) m h = ground arith

  -- A run that passes the static validation has a valid configuration and a positive limit of
  -- connections; so, over any default transport of net/http's own type, the shared client is
  -- created, with that limit for its connections to a host and room to keep as many of them idle.
  pub static_limit_positive :
      (c : Config fl) (d : AdmissionDecision D) (transport : Transport)
      → validate_static fl parse diagnostics c ≡ ok d
      → IsValidConfig fl parse c
        × (pos 0 <ℤ d.transport_worker_limit)
        × ServesWithin d.transport_worker_limit
            (new_shared_http_client (some transport) d.transport_worker_limit)
  static_limit_positive c d transport h =
      let (valid, admitted) = static_parts c d h in
      let low = closed_limit (admission_request fl parse diagnostics c) d _ refl admitted in
      (
        (validate_iff fl parse c).0 valid,
        low,
        new_shared_http_client-ServesWithin transport d.transport_worker_limit low,
      )

-- ===== src/Tests/Transport.antt =====
-- Two threads and a limit of one, and a server that is overloaded.
use acmex.Base.{◌+◌, ◌-◌, ◌≡◌, ◌≤◌, refl, true, false, arith}
use acmex.Transport.Limiter.{
  RequestLimiter, new, can_request, pass, start, Reaches, here, then_step, passes, starts,
  guards-bounded,
}
use acmex.Transport.Retry.{RetryPolicy, fixed_delay}

-- Both threads pass the test before either counts itself.
abbrev overrun : RequestLimiter
overrun = record { max_concurrent = 1; current = 2; passed = 0; guards = 2 }

overrun-Reaches : Reaches 2 (new 1) overrun
unfolding new can_request pass start
overrun-Reaches =
    then_step
      (then_step
        (then_step (then_step here (passes refl (omega arith))) (passes refl (omega arith)))
        (starts (omega arith)))
      (starts (omega arith))

guards-bounded_example :
    (RequestLimiter.current overrun ≡ RequestLimiter.guards overrun)
    × (RequestLimiter.guards overrun ≤ 1 + (2 - 1))
guards-bounded_example = guards-bounded 2 1 overrun overrun-Reaches

abbrev policy : RetryPolicy
policy = record {
  max_retries = 3;
  strategy = fixed_delay 1000;
  retry_on_client_error = false;
  retry_on_server_error = true;
}

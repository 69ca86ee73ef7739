-- ===== src/CircuitBreaker/Trip/Counts.antt =====
-- Which errors count as failures (`isBreakerTrip` of router/src/resilience/circuitBreaker.ts).
use local_llms.Base.{
  ℕ, ◌≤◌, ◌≡◌, refl, ◌↔◌, ◌⊎◌, true, Option, none, some, Text, codes, text_eq_iff, arith, leb→le,
}
use local_llms.CircuitBreaker.Trip.{
  Thrown, user_abort, zod_error, connection_timeout, connection_error, object, primitive,
  is_breaker_trip,
}

-- The errors that count, as the decision D-B1 lists them.
pub data Counts : Thrown → Type 0 where
  timeout : Counts connection_timeout
  connection : Counts connection_error
  server_status :
      {status : ℕ} {status_code : Option ℕ} {code : Option Text}
      → 500 ≤ status
      → Counts (object (some status) status_code code)
  server_status_code :
      {status_code : ℕ} {code : Option Text}
      → 500 ≤ status_code
      → Counts (object none (some status_code) code)
  network :
      {code : Text}
      → (code ≡ codes "ENOTFOUND") ⊎ ((code ≡ codes "ECONNREFUSED") ⊎ (code ≡ codes "ECONNRESET"))
      → Counts (object none none (some code))

pub trip-Counts : (err : Thrown) → is_breaker_trip err ≡ true → Counts err
unfolding is_breaker_trip
trip-Counts user_abort e = absurd (cc e)
trip-Counts zod_error e = absurd (cc e)
trip-Counts connection_timeout e = timeout
trip-Counts connection_error e = connection
trip-Counts (object (some status) status_code code) e = server_status (leb→le _ _ e)
trip-Counts (object none (some status_code) code) e = server_status_code (leb→le _ _ e)
trip-Counts (object none none (some code)) e = network (
    ground (
      arith,
      text_eq_iff code (codes "ENOTFOUND"),
      text_eq_iff code (codes "ECONNREFUSED"),
      text_eq_iff code (codes "ECONNRESET"),
    ))
trip-Counts (object none none none) e = absurd (cc e)
trip-Counts primitive e = absurd (cc e)

pub is_breaker_trip_of_Counts : {err : Thrown} → Counts err → is_breaker_trip err ≡ true
unfolding is_breaker_trip
is_breaker_trip_of_Counts timeout = refl
is_breaker_trip_of_Counts connection = refl
is_breaker_trip_of_Counts (server_status h) = ground arith
is_breaker_trip_of_Counts (server_status_code h) = ground arith
is_breaker_trip_of_Counts (network {code = code} h) = ground (
  arith,
  text_eq_iff code (codes "ENOTFOUND"),
  text_eq_iff code (codes "ECONNREFUSED"),
  text_eq_iff code (codes "ECONNRESET"),
)

-- `isBreakerTrip` decides the list: connection errors and timeouts, a status of at least 500, and,
-- where there is no status, the three network codes count; nothing else does.
pub is_breaker_trip_iff : (err : Thrown) → (is_breaker_trip err ≡ true) ↔ Counts err
is_breaker_trip_iff err = (trip-Counts err, is_breaker_trip_of_Counts)

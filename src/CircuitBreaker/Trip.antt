-- ===== src/CircuitBreaker/Trip.antt =====
-- `isBreakerTrip` of router/src/resilience/circuitBreaker.ts.
pub mod Counts
use local_llms.Base.{ℕ, Bool, true, false, ◌||◌, Option, none, some, Text, codes, text_eq, leb}

-- What a route may catch: an instance of a class that the function tests for, any other object,
-- with the fields that it reads where they have the type that it asks for, or no object.
pub data Thrown : Type 0 where
  user_abort zod_error connection_timeout connection_error : Thrown
  object : Option ℕ → Option ℕ → Option Text → Thrown  -- status, statusCode, code
  primitive : Thrown

abbrev is_network_code : Option Text → Bool
is_network_code none = false
is_network_code (some code) =
    text_eq code (codes "ENOTFOUND")
    || (text_eq code (codes "ECONNREFUSED") || text_eq code (codes "ECONNRESET"))

unfoldable pub is_breaker_trip : Thrown → Bool
is_breaker_trip user_abort = false
is_breaker_trip zod_error = false
is_breaker_trip connection_timeout = true
is_breaker_trip connection_error = true
is_breaker_trip (object (some status) status_code code) = leb 500 status
is_breaker_trip (object none (some status_code) code) = leb 500 status_code
is_breaker_trip (object none none code) = is_network_code code
is_breaker_trip primitive = false

-- ===== src/Middleware.antt =====
-- What the middleware does to a response: libs/app/logging_middleware.py and
-- libs/app/security_middleware.py, and the identifiers of libs/utils/ids.py. The application behind it is
-- `call_next`, over a state `S`; header names are in lower case, as the framework compares them. The
-- record that is logged is left out.
use Prim.Native.String.{◌++◌}
use mmo_backend_server.Prelude.{String, ℕ, Option, none, some, Exec, pure, ◌>>=◌}
use mmo_backend_server.Prelude.Dict.{Dict, lookup, insert}

pub record Request : Type 0 where
  pub headers : Dict String

pub record Response : Type 0 where
  pub status_code : ℕ
  pub headers : Dict String

-- The identifiers, from the hexadecimal digits of the UUID that each draws.
abbrev pub new_request_id : String → String
new_request_id drawn = "req_" ++ drawn

abbrev pub new_correlation_id : String → String
new_correlation_id drawn = "cor_" ++ drawn

abbrev pub or_default : Option String → String → String
or_default none other = other
or_default (some given) other = given

abbrev pub set_header : String → String → Response → Response
set_header name v response = record response { headers = insert name v response.headers }

module _ {S : Type 0} (call_next : Request → Exec S Response) where
  unfoldable pub log_dispatch : String → Request → Exec S Response
  log_dispatch drawn request = do
    let request_id = or_default (lookup "x-request-id" request.headers) (new_request_id drawn)
    response ← call_next request
    pure (set_header "x-request-id" request_id response)

  unfoldable pub security_dispatch : Request → Exec S Response
  security_dispatch request = do
    response ← call_next request
    pure (
        set_header "content-security-policy" "default-src 'none'" (
          set_header "referrer-policy" "no-referrer" (
            set_header "x-frame-options" "DENY"
              (set_header "x-content-type-options" "nosniff" response))))

-- ===== src/Errors/Statuses.antt =====
-- What `get_http_status` answers.
use mmo_backend_server.Prelude.{
  ℕ, ◌≤◌, ◌<◌, String, ◌≡◌, ◌≢◌, refl, sym, ap, ◌∙◌, Option, none, some, List, [], ◌∷◌, eq_iff,
  arith, All, All-of,
}
use mmo_backend_server.Errors.{
  ErrorCode, value, members, member_of, error_code_to_http_status, get_http_status, status_or_500,
}

member_of-value : (c : ErrorCode) → member_of members (value c) ≡ some c
unfolding member_of value
member_of-value ErrorCode.auth_invalid_credentials = refl
member_of-value _ = refl

-- No two members share a value. (Python would make the second of two such an alias of the first.)
pub value-injective : (c d : ErrorCode) → value c ≡ value d → c ≡ d
value-injective c d e =
    let same : some c ≡ some d =
      sym (member_of-value c) ∙ ap (member_of members) e ∙ member_of-value d in
    cc

abbrev pub listed : Option ℕ → ℕ
listed none = 500
listed (some s) = s

-- A known code, given by its text, has the status of the table, or 500 if the table has no entry.
pub get_http_status-value :
    (c : ErrorCode) → get_http_status (value c) ≡ listed (error_code_to_http_status c)
unfolding get_http_status member_of value error_code_to_http_status
get_http_status-value ErrorCode.auth_invalid_credentials = refl
get_http_status-value _ = refl

member_of-none :
    (cs : List ErrorCode) (text : String) → All (λ c. value c ≢ text) cs → member_of cs text ≡ none
unfolding member_of
member_of-none [] text h = refl
member_of-none (c ∷ cs) text h = ground (arith, eq_iff (value c) text, member_of-none cs text h.1)

-- A text that is no member's value has the status 500.
pub get_http_status-unknown :
    (text : String) → ((c : ErrorCode) → value c ≢ text) → get_http_status text ≡ 500
unfolding get_http_status
get_http_status-unknown text h = rw (member_of-none members text (All-of h members))

-- Whatever code a reply carries, the gateway answers with a client or a server error.
pub get_http_status_bounds :
    (text : String) → (400 ≤ get_http_status text) × (get_http_status text < 600)
unfolding get_http_status error_code_to_http_status
get_http_status_bounds text = bounds (member_of members text)
  where
    bounds : (o : Option ErrorCode) → (400 ≤ status_or_500 o) × (status_or_500 o < 600)
    bounds o = ground arith

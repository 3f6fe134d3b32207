-- ===== src/Worker/Views/Tests.antt =====
-- Views: a signed order, and a deletion under the same nonce.
use rubigram.Base.{
  true, ◌+◌, ◌/◌, concat, decimal_from, decimal, ℕ, String, ◌≡◌, refl, Bool, false, none, some,
  List, [], ◌∷◌, arith,
}
use rubigram.Base.Errors.{ok}
use rubigram.Base.Int.{pos}
use rubigram.Base.Texts.{all_chars}
use rubigram.Internal.Signing.{codes, ascii_bytes, message, signed_headers, digest, sign_body}
use rubigram.Internal.Signing.RoundTrip.{verify_body-sign_body}
use rubigram.Worker.Db.{Db, Settings}
use rubigram.Worker.Jobs.{Payload}
use rubigram.Worker.Views.{
  post, HttpRequest, Parsed, object, Keys, Query, error_reply, internal_orders_view,
  internal_health_view, internal_delete_account_view, allows, all_numbers, verified, serve,
}
use rubigram.Worker.Views.Replayed.{duplicate, IsGuarded, serve-IsGuarded, serve_twice}

abbrev settings : Settings
settings = record {
  has_bonus = true;
  bonus_of = λ n. (n + 4) / 5;
  action_delay = 20;
  throttle_too_requests = 600;
  throttle_conn_error = 60;
  view_review_cooldown = 3600;
  job_max_wait = 900;
  view_post_counts = [];
}

abbrev empty : Db
empty = record {
  accounts = [];
  credentials = [];
  throttles = [];
  memberships = [];
  post_views = [];
  jobs = [];
  items = [];
  schedules = [];
  nonces = [];
  next_account_id = 1;
  next_job_id = 1;
  next_item_id = 1;
  next_schedule_id = 1;
  queue = [];
}

-- A digest that is the same for all messages, and a body that is read as nothing.
abbrev same_digest : String → List ℕ → String
same_digest secret m = "ab"

abbrev parse_ids : List ℕ → Parsed (Unit {0})
parse_ids body = object tt

abbrev order_of : Unit {0} → Payload
order_of j = record {
  external_order_id = some (pos 7);
  count = some (pos 1);
  action = "join";
  service_id = "";
  target = "@channel";
  callback_url = "";
  idempotency_key = "";
  retention_days = none;
}

abbrev keys_of : Unit {0} → Keys
keys_of j = record { account_id = none; session_name = "two"; phone = "" }

abbrev query_of : Unit {0} → Query
query_of j = record { session_names = none; account_ids = none; include_aggregate = false }

abbrev headers : List (String × String)
headers = signed_headers "X-Balegram" "5" "n" "ab"

abbrev request : HttpRequest
request = record { method = post; headers = headers; body = 7 ∷ [] }

abbrev now : ℕ
now = 200_000_000

abbrev free : ℕ → Bool
free id = false

signed : sign_body same_digest (7 ∷ []) "key" 5 "n" "X-Balegram" ≡ ok headers
unfolding sign_body digest message ascii_bytes codes all_chars concat decimal decimal_from
signed = refl

request-verified :
    verified same_digest parse_ids order_of keys_of query_of "key" 300 settings free now request
    ≡ ok (record { timestamp = pos 5; nonce = "n" })
unfolding all_chars
request-verified =
    verify_body-sign_body same_digest (7 ∷ []) "key" 5 200 300 "n" "X-Balegram" headers (λ m. refl)
      refl refl (omega arith) (omega arith) signed

serve-IsGuarded_example :
    IsGuarded same_digest parse_ids order_of keys_of query_of "key" 300 settings free now request
      empty
      (serve same_digest parse_ids order_of keys_of query_of "key" 300 settings free
        internal_orders_view now request empty)
serve-IsGuarded_example =
    serve-IsGuarded same_digest parse_ids order_of keys_of query_of "key" 300 settings free
      internal_orders_view now request empty

serve_twice_example :
    let serve_one = serve same_digest parse_ids order_of keys_of query_of "key" 300 settings free in
    serve_one internal_delete_account_view now request
      (serve_one internal_orders_view now request empty).1
    ≡ (duplicate, (serve_one internal_orders_view now request empty).1)
unfolding allows
serve_twice_example =
    serve_twice same_digest parse_ids order_of keys_of query_of "key" 300 settings free
      internal_orders_view internal_delete_account_view now now request request empty
      (record { timestamp = pos 5; nonce = "n" }) (record { timestamp = pos 5; nonce = "n" }) refl
      refl request-verified request-verified refl

wrong_method :
    (serve same_digest parse_ids order_of keys_of query_of "key" 300 settings free
      internal_health_view now request empty).0
    ≡ error_reply 405 "Method not allowed."
unfolding serve allows
wrong_method = refl

numbers : all_numbers (some (pos 1) ∷ none ∷ []) ≡ none
unfolding all_numbers
numbers = refl

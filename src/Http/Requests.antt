-- ===== src/Http/Requests.antt =====
-- internal/httpapi/miniapp.go and server.go: the requests, the responses and the texts of errors.
use hoodalpha.Prelude.{if◌then◌else◌, ℕ, Bool, not, ◌||◌, Option, [], ◌++◌}
use hoodalpha.Prelude.Int.{ℤ}
use hoodalpha.Go.Text.{
  Text, codes, text_eq, trim_space, has_prefix, trim_prefix, contains, to_lower,
}
use hoodalpha.Go.Error.{
  wallet_not_owned, wallet_already_linked, not_found, Error, is, message, ok, err,
}
use hoodalpha.Go.Exec.{Exec}
use hoodalpha.Go.Time.{Time, zero_time}
use hoodalpha.Go.Float.{Float}
use hoodalpha.Domain.Health.{HealthReport}
use hoodalpha.Domain.Wallet.{WalletRole, owner, bot, other_role}
use hoodalpha.Domain.Policy.{WalletPolicy}
use hoodalpha.App.Onboarding.{Identity}
use hoodalpha.App.MiniApp.{MiniAppAuth}
use hoodalpha.App.Wallets.{WalletService, LinkRequest}
use hoodalpha.App.Health.{HealthChecker}
use hoodalpha.Http.Bodies.{Json, string, itoa64, error_body}

-- The routes of `New` and `mountMiniApp`, and any path outside of them.
pub data Route : Type 0 where
  healthz readyz version : Route
  session list_route link_route : Route
  wallet_route policy_route : Text → Route
  unknown_route : Route

-- The two headers that are read, empty where they are not sent, and the body.
pub record HttpRequest : Type 0 where
  pub route : Route
  pub init_data_header : Text
  pub authorization : Text
  pub body : Text

pub record Response : Type 0 where
  pub status : ℕ
  pub body : Json

-- The bodies of the two routes that write.
pub record LinkBody : Type 0 where
  pub address : Text
  pub role : Text
  pub label : Text

pub record PolicyBody : Type 0 where
  pub max_position_percent : Float
  pub max_open_positions : ℤ
  pub daily_loss_limit_percent : Float
  pub stop_loss_percent : Float
  pub capital_recovery_percent : Float
  pub max_slippage_bps : ℤ
  pub min_liquidity_usd : Float
  pub trading_enabled : Bool

-- `Server` with its `Options`: the health check, the use cases of the Mini App, `decodeJSON` into the
-- two bodies, the JSON of the report and of the build, and `Format(time.RFC3339)`.
pub record Server (S : Type 0) : Type 0 where
  pub health : HealthChecker S
  pub auth : Option (MiniAppAuth S)
  pub wallets : WalletService S
  pub chain_id : ℕ
  pub decode_link : Text → Option LinkBody
  pub decode_policy : Text → Option PolicyBody
  pub report_json : HealthReport → Json
  pub build_json : Json
  pub rfc3339 : Time → Text

-- `writeJSON` and `writeError`
abbrev pub write_json : ℕ → Json → Response
write_json status body = record { status = status; body = body }

abbrev pub write_error : ℕ → Text → Response
write_error status text = write_json status (error_body text)

-- The answer of the router to a path that it does not know.
abbrev pub no_route : Response
no_route = write_json 404 (string (codes "404 page not found"))

-- A handler: its response, beside what it changed.
abbrev pub Handler : Type 0 → Type 0
Handler S = S → Response × S

-- The credential of a request, which comes from a header only.
unfoldable pub init_data : HttpRequest → Text
init_data r =
    if not (text_eq r.init_data_header [])
    then r.init_data_header
    else if has_prefix (codes "tma ") r.authorization
    then trim_space (trim_prefix (codes "tma ") r.authorization)
    else []

-- The role of a link request: the owner where none is given.
unfoldable pub role_of : Text → WalletRole
role_of text =
    let t = to_lower (trim_space text) in
    if text_eq t [] || text_eq t (codes "owner")
    then owner
    else if text_eq t (codes "bot")
    then bot
    else other_role t

-- `writeWalletError`
unfoldable pub wallet_error : Error → Response
wallet_error e =
    if is e wallet_not_owned || is e not_found
    then write_error 404 (codes "wallet not found")
    else write_error 500 (codes "request failed")

-- The errors of the link route.
unfoldable pub link_error : Error → Response
link_error e =
    if is e wallet_already_linked
    then write_error 409 (codes "wallet already linked")
    else if contains (codes "invalid evm address") (message e)
        || contains (codes "zero address") (message e)
    then write_error 400 (message e)
    else write_error 500 (codes "could not link wallet")

-- The errors of the policy route.
unfoldable pub policy_error : Error → Response
policy_error e =
    if is e wallet_not_owned || is e not_found
    then write_error 404 (codes "wallet not found")
    else if contains (codes "invalid policy") (message e)
    then write_error 422 (message e)
    else write_error 500 (codes "could not update policy")

-- The policy that a body asks for.
abbrev pub requested_policy : PolicyBody → WalletPolicy
requested_policy b = record {
  id = [];
  wallet_id = [];
  max_position_percent = b.max_position_percent;
  max_open_positions = b.max_open_positions;
  daily_loss_limit_percent = b.daily_loss_limit_percent;
  stop_loss_percent = b.stop_loss_percent;
  capital_recovery_percent = b.capital_recovery_percent;
  max_slippage_bps = b.max_slippage_bps;
  min_liquidity_usd = b.min_liquidity_usd;
  trading_enabled = b.trading_enabled;
  created_at = zero_time;
  updated_at = zero_time;
}

-- The actor of a request in the audit trail.
abbrev pub actor_of : Identity → Text
actor_of id = codes "telegram:" ++ itoa64 id.telegram.telegram_id

-- The `LinkRequest` of a body.
abbrev pub requested_link : Identity → LinkBody → LinkRequest
requested_link id b = record {
  user_id = id.user.id;
  address = b.address;
  role = role_of b.role;
  label = b.label;
  actor_id = actor_of id;
}

-- The response to the result of a use case.
abbrev pub respond : {S A : Type 0} → (A → Response) → (Error → Response) → Exec S A → Handler S
respond fine refused m s = let (r, s1) = m s in (elim r [ ok a ↦ fine a | err e ↦ refused e ], s1)

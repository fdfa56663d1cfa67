-- ===== src/Telegram/Commands.antt =====
-- The handlers of internal/telegram/commands.go.
pub mod Connect
use hoodalpha.Prelude.{◌==◌, if◌then◌else◌, length, ℕ, Option, none, some, List, [], ◌∷◌, ◌++◌}
use hoodalpha.Prelude.Int.{pos, ltb_ℤ}
use hoodalpha.Go.Text.{Text, codes, text_eq, trim_space, contains, decimal, decimal_ℤ}
use hoodalpha.Go.Error.{wallet_already_linked, new, wrap, is_variable, message, Result, ok, err}
use hoodalpha.Go.Exec.{Exec, pure, fail, lift, wrapping, attempt, ◌>>=◌, ◌>>◌}
use hoodalpha.Go.Float.{Float}
use hoodalpha.Domain.Chain.{chain_name}
use hoodalpha.Domain.User.{display_name}
use hoodalpha.Domain.Wallet.{owner, role_text, status_text, Wallet}
use hoodalpha.Domain.Wei.{new_wei, ether}
use hoodalpha.Domain.Health.{HealthStatus, up, degraded, down, ComponentHealth}
use hoodalpha.Domain.Policy.{WalletPolicy}
use hoodalpha.App.Wallets.{WalletService, LinkRequest, WalletView, link_wallet, list_wallets}
use hoodalpha.App.Onboarding.{telegram_actor_id}
use hoodalpha.App.Health.{HealthChecker, btoa, check}
use hoodalpha.Telegram.Secret.{looks_like_secret}
use hoodalpha.Telegram.Help.{line, pad_right}
use hoodalpha.Telegram.Table.{Request, arg}

-- `CommandDeps`, with `%.1f` of a `float64`.
pub record CommandDeps (S : Type 0) : Type 0 where
  pub health : Option (HealthChecker S)
  pub wallets : Option (WalletService S)
  pub chain_id : ℕ
  pub mini_app_url : Text
  pub fixed_1 : Float → Text

abbrev upper_status : HealthStatus → Text
upper_status up = codes "UP"
upper_status degraded = codes "DEGRADED"
upper_status down = codes "DOWN"

abbrev health_text : HealthStatus → Text
health_text up = codes "up"
health_text degraded = codes "degraded"
health_text down = codes "down"

abbrev pub warning : Text
warning =
    line "That looks like a private key or seed phrase — never share one."
    ++ 10
      ∷ codes
          "It was not stored. Rotate that wallet immediately if it is real, then send only your public address: /connect 0xYourAddress"

abbrev pub bad_address : Text
bad_address =
    codes "That is not a valid EVM address. It should look like 0x followed by 40 hex characters."

abbrev pub already_linked : Text
already_linked = codes "That wallet is already linked to your account. Use /status to see it."

-- The value of a key in the details of a component.
detail_of : Text → List (Text × Text) → Option Text
detail_of key [] = none
detail_of key ((k, v) ∷ rest) = if text_eq k key then some v else detail_of key rest

module _ {S : Type 0} (d : CommandDeps S) where
  open d use {chain_id, fixed_1}

  network : Text
  unfolding chain_name decimal
  network =
      codes "Network: " ++ chain_name chain_id ++ codes " (chain " ++ decimal chain_id ++ line ")"

  -- `handleStart`
  unfoldable pub handle_start : Request → Exec S Text
  unfolding display_name network
  handle_start req = pure (
      (if req.identity.first_contact
        then codes "Welcome, "
          ++ display_name req.identity.telegram
          ++ line ". Your account is registered."
        else codes "Welcome back, " ++ display_name req.identity.telegram ++ line ".")
      ++ 10 ∷ network
      ++ 10 ∷ line "Available now:"
      ++ line "  /connect — link a wallet"
      ++ line "  /status  — wallets and trading status"
      ++ line "  /health  — dependency health"
      ++ line "  /help    — list commands"
      ++ 10
        ∷ codes
            "This build can read the chain and manage wallet records. It cannot trade: there is no signer and no execution engine yet.")

  balance_line : WalletView → Text
  unfolding ether
  balance_line v =
      if text_eq v.balance_error []
      then codes "  balance: "
        ++ ether (elim v.balance [ none ↦ new_wei none | some w ↦ w ])
        ++ line " ETH"
      else line "  balance: unavailable"

  policy_lines : Option WalletPolicy → Text
  unfolding decimal_ℤ
  policy_lines none = []
  policy_lines (some p) =
      if text_eq p.wallet_id []
      then []
      else codes "  limits: max "
        ++ fixed_1 p.max_position_percent
        ++ codes "%/position, "
        ++ decimal_ℤ p.max_open_positions
        ++ codes " open, "
        ++ fixed_1 p.daily_loss_limit_percent
        ++ line "% daily loss"
        ++ codes "  trading enabled: "
        ++ btoa p.trading_enabled
        ++ 10 ∷ []

  view_lines : List WalletView → Text
  unfolding balance_line policy_lines
  view_lines [] = []
  view_lines (v ∷ vs) =
      10 ∷ codes "  "
      ++ v.wallet.address
      ++ 10 ∷ codes "  role: "
      ++ role_text v.wallet.role
      ++ codes "   status: "
      ++ status_text v.wallet.status
      ++ 10 ∷ balance_line v
      ++ policy_lines v.policy
      ++ view_lines vs

  -- `handleStatus`
  unfoldable pub handle_status : Request → Exec S Text
  unfolding network view_lines
  handle_status req =
      let head =
        codes "Account: "
        ++ req.identity.user.id
        ++ 10 ∷ network
        ++ line "Trading: disabled (not implemented in this phase)"
        ++ 10 ∷ [] in
      elim d.wallets [
        | none ↦ pure (head ++ codes "Wallets: unavailable")
        | some service ↦ do
          views ← wrapping (wrap (codes "list wallets")) (list_wallets service req.identity.user.id)
          pure (
              head
              ++ (if length views == 0
                  then codes "No wallets linked. Use /connect to add one."
                  else codes "Wallets ("
                    ++ decimal (length views)
                    ++ line "):"
                    ++ view_lines views))
      ]

  component_lines : List ComponentHealth → Text
  unfolding decimal_ℤ detail_of pad_right
  component_lines [] = []
  component_lines (c ∷ cs) =
      codes "  "
      ++ pad_right 10 c.name
      ++ 32 ∷ health_text c.status
      ++ (if ltb_ℤ (pos 0) c.latency_ms
          then codes " (" ++ decimal_ℤ c.latency_ms ++ codes "ms)"
          else [])
      ++ (if text_eq c.error [] then [] else codes " — " ++ c.error)
      ++ 10 ∷ (elim (detail_of (codes "last_block") c.details) [
        | none ↦ []
        | some block ↦ codes "             block " ++ block ++ 10 ∷ []
      ])
      ++ component_lines cs

  -- `handleHealth`
  unfoldable pub handle_health : Request → Exec S Text
  unfolding component_lines
  handle_health req s = elim d.health [
    | none ↦ (ok (codes "Health checks are not configured."), s)
    | some h ↦
        let (report, s') = check h s in
        (
          ok (
              codes "Status: "
              ++ upper_status report.status
              ++ 10 ∷ codes "Version: "
              ++ report.version
              ++ 10 ∷ 10 ∷ component_lines report.components),
          s',
        )
  ]

  -- The reply of `handleConnect` without an address.
  connect_help : Text
  connect_help =
      line "Link a wallet:"
      ++ 10
        ∷ (if text_eq d.mini_app_url []
            then []
            else codes "  Open the Mini App: " ++ d.mini_app_url ++ 10 ∷ 10 ∷ [])
      ++ line "  Or send: /connect 0xYourAddress"
      ++ 10
        ∷ codes
            "Only a public address is ever needed. Never send a private key or seed phrase — not to this bot, not to anyone."

  linked_text : Wallet → Text
  linked_text w =
      codes "Wallet linked: "
      ++ w.address
      ++ 10 ∷ 10 ∷ codes "Status: "
      ++ status_text w.status
      ++ codes " — verifying it on "
      ++ chain_name w.chain_id
      ++ line "."
      ++ line "It becomes active once the address is confirmed on-chain. Check /status in a moment."
      ++ 10 ∷ codes "Trading stays disabled until you enable it explicitly."

  -- What `handleConnect` answers to the result of `Link`.
  unfoldable pub connect_reply : Result Wallet → Result Text
  unfolding linked_text
  connect_reply (ok w) = ok (linked_text w)
  connect_reply (err e) =
      if contains (codes "invalid evm address") (message e)
      then ok bad_address
      else if is_variable e wallet_already_linked
      then ok already_linked
      else err e

  -- The request that `handleConnect` makes of an address.
  abbrev pub link_request : Request → Text → LinkRequest
  link_request req address = record {
    user_id = req.identity.user.id;
    address = address;
    role = owner;
    label = [];
    actor_id = telegram_actor_id req.identity.telegram.telegram_id;
  }

  -- `handleConnect`
  unfoldable pub handle_connect : Request → Exec S Text
  unfolding connect_help connect_reply
  handle_connect req =
      let address = trim_space (arg req.args 0) in
      if text_eq address []
      then pure connect_help
      else if looks_like_secret address
      then pure warning
      else elim d.wallets [
        | none ↦ fail (new (codes "wallet service is not configured"))
        | some service ↦ do
          linked ← attempt (link_wallet service (link_request req address))
          lift (connect_reply linked)
      ]

-- ===== src/System/Site/Replay.antt =====
-- A payload that comes to the API again.
use hoodalpha.Prelude.{
  ◌==◌, Bool-cases, ℕ, ◌+◌, ◌*◌, ◌^◌, ◌<◌, ◌≡◌, refl, sym, ap, ◌∙◌, subst, ◌≢◌, inl, inr, true,
  false, Option, [], arith,
}
use hoodalpha.Prelude.Int.{pos, leb_ℤ}
use hoodalpha.Go.Text.{Text, codes, text_eq}
use hoodalpha.Go.Error.{ok}
use hoodalpha.Go.Time.{minute}
use hoodalpha.App.Health.{HeadWatcher}
use hoodalpha.InitData.{new_verifier, verify}
use hoodalpha.InitData.Guard.{new_replay_guard}
use hoodalpha.InitData.Replay.{IsLater, KeepsMilliseconds, IsNoFaster, verify_at, accepted_once}
use hoodalpha.Telegram.Limiter.{WindowOf}
use hoodalpha.Http.{serve}
use hoodalpha.Http.Requests.{HttpRequest, Server, init_data}
use hoodalpha.Http.Sessions.{is_miniapp, answered_to_user}
use hoodalpha.Postgres.Tables.{Postgres}
use hoodalpha.Config.{Config, enabled}
use hoodalpha.Cmd.{Libraries, new_wallet_service}
use hoodalpha.Cmd.Api.{verifier_options, new_mini_app_auth, api_server}
use hoodalpha.Cmd.Api.Admission.{server-auth, server-wallets}
use hoodalpha.System.Site.{Site, Connected, site_ports}
use hoodalpha.Config.Env.{Environment}
use hoodalpha.Config.Load.{load}
use hoodalpha.Config.Bounds.{load-IsBounded}
use hoodalpha.InitData.Types.{Data, Verifier}
use hoodalpha.App.Ports.{record_audit}
use hoodalpha.App.Wallets.Apart.{IsApart}
use hoodalpha.Http.Apart.{IsAuthApart, serve-view}
use hoodalpha.System.Site.Verifier.{site_verifier, verify-redis, verify-state}

made_of : {S : Type 0} (v made : Verifier S) → ok made ≡ ok v → v ≡ made
made_of v made e = ground arith

module _ (libraries : Libraries) (pg : Postgres) (window_of : WindowOf) (connected : Connected)
    (c : Config) (head : Option (HeadWatcher Site)) (server : Server Site)
    (built : api_server libraries (site_ports pg window_of connected) c head ≡ ok server) where
  open libraries use {crypto}

  -- The prefix of the keys of the Mini App.
  abbrev key_prefix : Text
  key_prefix = new_replay_guard (codes "miniapp")

  abbrev secret : Text
  secret = crypto.hmac_sha256 (codes "WebAppData") c.telegram.bot_token

  made_verifier :
      (v : Verifier Site) (ttl : ℕ)
      → enabled c.telegram ≡ true
      → c.telegram.initdata_ttl ≡ pos ttl
      → 0 < ttl
      → new_verifier crypto (verifier_options libraries (site_ports pg window_of connected) c)
        ≡ ok v
      → v ≡ site_verifier crypto secret key_prefix ttl minute
  unfolding new_verifier enabled
  made_verifier v ttl on lifetime positive made =
      let given : text_eq c.telegram.bot_token [] ≡ false = ground arith in
      let lasting : leb_ℤ (pos ttl) (pos 0) ≡ false = ground arith in
      made_of v (site_verifier crypto secret key_prefix ttl minute)
        (rw (given, lifetime, lasting) at made)

  -- The connections of the repositories and of the chain leave Redis alone.
  wallets-IsApart :
      IsApart (λ (t : Site). t.redis) (new_wallet_service (site_ports pg window_of connected) c)
  unfolding record_audit
  wallets-IsApart = record {
    links = λ w p s. refl;
    gets = λ id s. refl;
    lists = λ user_id s. refl;
    gets_policy = λ id s. refl;
    updates_policy = λ id p s. refl;
    audits = λ event s. refl;
    reads = λ probe a e s. ground arith;
    enqueues = λ q id e s. ground arith;
  }

  auth-IsAuthApart :
      (v : Verifier Site)
      → IsAuthApart
          (λ (t : Site). t.redis)
          (new_mini_app_auth libraries (site_ports pg window_of connected) c v)
  unfolding record_audit
  auth-IsAuthApart v = record {
    ensures = λ t s. refl;
    audits = λ event s. refl;
    audits_onboarding = λ event s. refl;
  }

  -- What a route of the Mini App accepts, the verifier over Redis has accepted, and nothing behind it
  -- touches Redis.
  accepted_by_redis :
      (ttl : ℕ) (r : HttpRequest) (s : Site)
      → enabled c.telegram ≡ true
      → c.telegram.initdata_ttl ≡ pos ttl
      → 0 < ttl
      → is_miniapp r.route ≡ true
      → (serve server r s).0.status ≢ 401
      → (found : Data) × ((verify_at crypto secret key_prefix ttl minute (init_data r) s.redis).0
          ≡ ok found)
        × ((serve server r s).1.redis
            ≡ (verify_at crypto secret key_prefix ttl minute (init_data r) s.redis).1)
  accepted_by_redis ttl r s on lifetime positive inside answered =
      let ports = site_ports pg window_of connected in
      let (v, made, configured) = server-auth libraries ports c head server built on in
      let is_made = made_verifier v ttl on lifetime positive made in
      let (id, payload, accepted, _, _, _, _, _) =
        answered_to_user server (new_mini_app_auth libraries ports c v) (verify crypto v) r s
          configured refl inside answered in
      let accepted_made =
        subst (λ w. (verify crypto w (init_data r) s).0 ≡ ok payload) is_made accepted in
      let left =
        serve-view (λ (t : Site). t.redis) (new_mini_app_auth libraries ports c v)
          (auth-IsAuthApart v) server
          (subst (IsApart (λ (t : Site). t.redis))
            (sym (server-wallets libraries ports c head server built)) wallets-IsApart)
          (verify crypto v) r s configured refl inside answered in
      (
        payload,
        sym (verify-redis crypto secret key_prefix ttl minute (init_data r) s) ∙ accepted_made,
        left
            ∙ (ap (λ w. (verify crypto w (init_data r) s).1.redis) is_made
                ∙ verify-state crypto secret key_prefix ttl minute (init_data r) s payload
                    accepted_made),
      )

  ttl_positive :
      (env : Environment) (ttl : ℕ) → load env ≡ ok c → c.telegram.initdata_ttl ≡ pos ttl → 0 < ttl
  ttl_positive env ttl loaded lifetime = ground (arith, load-IsBounded env c loaded, lifetime)

  -- An API of a loaded configuration with the token of a bot, over the repositories and Redis, that has answered
  -- a request to the Mini App with anything but 401 answers every later request that carries the same payload,
  -- to whatever route of the Mini App, with 401, while Redis keeps the unexpired keys that it has behind the
  -- first request. The age limit is of whole milliseconds and fits in a `Duration` with a minute more; the clock
  -- of Redis runs no faster than that of the API between the two requests, and the client sends whole
  -- milliseconds as they are.
  pub replayed_refused :
      (env : Environment) (ttl ms : ℕ) (r r' : HttpRequest) (s q : Site)
      → load env ≡ ok c
      → enabled c.telegram ≡ true
      → c.telegram.initdata_ttl ≡ pos ttl
      → ttl ≡ ms * 1_000_000
      → ttl + minute < 2 ^ 63
      → KeepsMilliseconds s.redis
      → IsNoFaster s.redis q.redis
      → is_miniapp r.route ≡ true
      → is_miniapp r'.route ≡ true
      → init_data r' ≡ init_data r
      → (serve server r s).0.status ≢ 401
      → IsLater (serve server r s).1.redis q.redis
      → (serve server r' q).0.status ≡ 401
  replayed_refused env ttl ms r r' s q loaded on lifetime whole fits keeps slow inside inside' same
        answered later =
      let positive : 0 < ttl = ttl_positive env ttl loaded lifetime in
      elim (Bool-cases ((serve server r' q).0.status == 401)) [
        | inl refused ↦ ground (arith, refused)
        | inr again ↦
            let (found, accepted, left) =
              accepted_by_redis ttl r s on lifetime positive inside answered in
            let (found', accepted', _) =
              accepted_by_redis ttl r' q on lifetime positive inside'
                (λ e. ground (arith, again, e)) in
            let once =
              accepted_once crypto secret key_prefix ttl minute (init_data r) s.redis q.redis found
                ms whole fits (omega arith) keeps slow accepted (rw left at later) in
            absurd (ground (arith, once, rw same at accepted'))
      ]

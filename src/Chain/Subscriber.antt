-- ===== src/Chain/Subscriber.antt =====
-- internal/chain/subscriber.go: `HeadSubscriber`, as the steps of `Run`. The context, the node and the
-- timers are the environment, which may do any step that is open to it at any time.
pub mod Invariant
pub mod Backoff
pub mod Ending
pub mod Session
use hoodalpha.Prelude.{
  ltb, ◌==◌, if◌then◌else◌, ℕ, ◌*◌, ◌^◌, ◌≡◌, Bool, true, false, not, ◌||◌, Option, none, some,
  List, [], ◌∷◌, ◌++◌,
}
use hoodalpha.Prelude.Int.{ℤ, pos, negsuc, scale, leb_ℤ, ltb_ℤ, to_int64, to_word64}
use hoodalpha.Go.Text.{Text, codes, text_eq, decimal, decimal_ℤ}
use hoodalpha.Go.Error.{Error, new, wrap, tagged, Result, ok, err}
use hoodalpha.Go.Time.{Time, Duration, second, zero_time}
use hoodalpha.Domain.Chain.{BlockRef}
use hoodalpha.Chain.Records.{RawHeader, header_to_ref}
use hoodalpha.Chain.Client.{err_wrong_chain}

-- `SubscriberOptions`, without the logger.
pub record SubscriberOptions : Type 0 where
  pub ws_url : Text
  pub expected_chain : ℕ
  pub dial_timeout : Duration
  pub reconnect_base : Duration
  pub reconnect_max : Duration

abbrev positive_or : Duration → ℕ → Duration
positive_or d n = if leb_ℤ d (pos 0) then pos n else d

-- The defaults of `NewHeadSubscriber`.
unfoldable pub new_head_subscriber : SubscriberOptions → SubscriberOptions
new_head_subscriber o = record o {
  dial_timeout = positive_or o.dial_timeout (10 * second);
  reconnect_base = positive_or o.reconnect_base second;
  reconnect_max = positive_or o.reconnect_max (30 * second);
}

-- Where `Run` is, with the delay before the next attempt: at the head of its loop, in a session, behind
-- the session, behind `setConnected(false)`, at the timer, between the update of the last head and the call
-- of `onHead` with it, or returned.
pub data Phase : Type 0 where
  starting streaming ended closed pausing : Duration → Phase
  handing : Duration → BlockRef → Phase
  returned : Error → Phase

-- The fields of `HeadSubscriber` under its mutex, the error of the context, and the calls of `onHead`, the
-- newest first. There is an `onHead`, as in the one call of `Run`.
pub record State : Type 0 where
  pub phase : Phase
  pub ctx : Option Error
  pub last : BlockRef
  pub seen_at : Time
  pub connected : Bool
  pub calls : List BlockRef

-- What the node answers when a session is opened.
pub record Opening : Type 0 where
  pub dialled : Result Unit
  pub chain_id : Result ℤ
  pub subscribed : Result Unit

-- The text of a `*big.Int` beside the expected identifier.
abbrev ws_mismatch : ℤ → ℕ → Error
ws_mismatch id expected =
    tagged err_wrong_chain
      (codes "websocket reports " ++ decimal_ℤ id ++ codes ", expected " ++ decimal expected)

-- The test of the identifier in `session`, which is left out for the expected network 0.
unfoldable pub check_reported : ℕ → Result ℤ → Result Unit
check_reported expected answer = if expected == 0 then ok tt else elim answer [
  | err e ↦ err (wrap (codes "verify chain id") e)
  | ok (pos n) ↦
      if not (ltb n (2 ^ 64)) || not (n == expected)
      then err (ws_mismatch (pos n) expected)
      else ok tt
  | ok (negsuc n) ↦ err (ws_mismatch (negsuc n) expected)
]

-- The part of `session` up to its loop.
unfoldable pub open_session : SubscriberOptions → Opening → Result Unit
open_session o a = elim a.dialled [
  | err e ↦ err (wrap (codes "dial websocket") e)
  | ok _ ↦ elim (check_reported o.expected_chain a.chain_id) [
    | err e ↦ err e
    | ok _ ↦ elim a.subscribed [ err e ↦ err (wrap (codes "subscribe new head") e) | ok _ ↦ ok tt ]
  ]
]

-- `setConnected`
abbrev pub set_connected : Bool → State → State
set_connected v s = record s { connected = v }

abbrev pub at_phase : Phase → State → State
at_phase p s = record s { phase = p }

-- A session that was opened is connected; one that was not has ended.
unfoldable pub opened : SubscriberOptions → Opening → Duration → State → State
opened o a b s = elim (open_session o a) [
  | ok _ ↦ at_phase (streaming b) (set_connected true s)
  | err _ ↦ at_phase (ended b) s
]

-- The branch of the loop in `session` for a header, at an instant, up to the call of `onHead`.
unfoldable pub on_header : Duration → RawHeader → Time → State → State
on_header b h at s =
    let ref = header_to_ref h in record s { phase = handing b ref; last = ref; seen_at = at }

-- The call of `onHead`, and back to the loop.
abbrev pub hand_on : Duration → BlockRef → State → State
hand_on b ref s = record s { phase = streaming b; calls = ref ∷ s.calls }

-- `backoff *= 2`, at most the longest delay.
unfoldable pub next_backoff : SubscriberOptions → Duration → Duration
next_backoff o b =
    let d = to_int64 (to_word64 (scale 2 b)) in
    if ltb_ℤ o.reconnect_max d then o.reconnect_max else d

unfoldable pub initial : SubscriberOptions → State
initial o = record {
  phase = starting o.reconnect_base;
  ctx = none;
  last = record { number = 0; hash = []; parent_hash = []; time = zero_time };
  seen_at = zero_time;
  connected = false;
  calls = [];
}

module _ (o : SubscriberOptions) where
  -- The steps of `Run`, of its sessions and of the context. A session is left where the context is done, and it
  -- is lost where `sub.Err()` gives an error or nil; a timer may fire in a context that is done.
  pub data RunStep : State → State → Type 0 where
    cancel : (s : State) (e : Error) → s.ctx ≡ none → RunStep s (record s { ctx = some e })
    give_up :
        (s : State) (b : Duration) (e : Error)
        → s.phase ≡ starting b
        → s.ctx ≡ some e
        → RunStep s (at_phase (returned e) s)
    open_step :
        (s : State) (b : Duration) (a : Opening)
        → s.phase ≡ starting b
        → s.ctx ≡ none
        → RunStep s (opened o a b s)
    receive :
        (s : State) (b : Duration) (h : RawHeader) (at : Time)
        → s.phase ≡ streaming b
        → RunStep s (on_header b h at s)
    hand :
        (s : State) (b : Duration) (ref : BlockRef)
        → s.phase ≡ handing b ref
        → RunStep s (hand_on b ref s)
    leave :
        (s : State) (b : Duration) (e : Error)
        → s.phase ≡ streaming b
        → s.ctx ≡ some e
        → RunStep s (at_phase (ended b) s)
    lose :
        (s : State) (b : Duration) (failure : Option Error)
        → s.phase ≡ streaming b
        → RunStep s (at_phase (ended b) s)
    disconnect :
        (s : State) (b : Duration)
        → s.phase ≡ ended b
        → RunStep s (at_phase (closed b) (set_connected false s))
    stop :
        (s : State) (b : Duration) (e : Error)
        → s.phase ≡ closed b
        → s.ctx ≡ some e
        → RunStep s (at_phase (returned e) s)
    start_timer :
        (s : State) (b : Duration)
        → s.phase ≡ closed b
        → s.ctx ≡ none
        → RunStep s (at_phase (pausing b) s)
    stop_timer :
        (s : State) (b : Duration) (e : Error)
        → s.phase ≡ pausing b
        → s.ctx ≡ some e
        → RunStep s (at_phase (returned e) s)
    wake :
        (s : State) (b : Duration)
        → s.phase ≡ pausing b
        → RunStep s (at_phase (starting (next_backoff o b)) s)

  -- Any number of steps.
  pub data RunSteps : State → State → Type 0 where
    rest : (s : State) → RunSteps s s
    then_step : (s t u : State) → RunSteps s t → RunStep t u → RunSteps s u

-- `Run`: an empty address is refused before the first step.
unfoldable pub run_start : SubscriberOptions → Result State
run_start o =
    if text_eq o.ws_url [] then err (new (codes "websocket url is empty")) else ok (initial o)

-- `Last` and `Connected`
abbrev pub last_head : State → BlockRef × Time
last_head s = (s.last, s.seen_at)

abbrev pub is_connected : State → Bool
is_connected s = s.connected

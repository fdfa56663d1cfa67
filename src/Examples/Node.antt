-- ===== src/Examples/Node.antt =====
-- The reader of the chain, on small inputs.
use hoodalpha.Prelude.{
  ltb, if◌then◌else◌, replicate, ℕ, ◌+◌, ◌≡◌, refl, inr, false, none, some, [], ◌∷◌, ◌++◌, arith,
}
use hoodalpha.Prelude.Int.{pos}
use hoodalpha.Go.Text.{codes, contains, lower, to_lower}
use hoodalpha.Go.Error.{new, message, ok, err}
use hoodalpha.Go.Exec.{Exec}
use hoodalpha.Chain.Retry.{Runtime, RetryPolicy, retryable, round, retry_loop, retry_do}
use hoodalpha.Chain.Retry.Bounds.{retry_do_ends, round_waits}
use hoodalpha.Chain.Records.{RawLog}
use hoodalpha.Chain.Client.{
  Node, ClientOptions, with_defaults, call, client_chain_id, verify_network, dial,
}
use hoodalpha.Chain.Client.Network.{Reported, dial_verified}
use hoodalpha.Examples.Rules.{mixed_case}

-- A context that is never done.
abbrev calm : Runtime ℕ
calm = record { ctx_err = λ _. none; pause = λ _ n. (none, n); rpc_code = λ _. none }

abbrev twice_again : RetryPolicy
twice_again = record { max_retries = pos 2; backoff = pos 0 }

abbrev patient : RetryPolicy
patient = record { max_retries = pos 5; backoff = pos 250_000_000 }

-- A node that answers the third call; the state counts the calls.
abbrev third_time : Exec ℕ ℕ
third_time n = (if ltb n 2 then err (new (codes "timeout")) else ok 7, n + 1)

retry_do_ends_example :
    retry_loop calm twice_again third_time 3 0 none 0
    ≡ some (retry_do calm twice_again third_time 0)
retry_do_ends_example = retry_do_ends calm twice_again third_time 3 0 (omega arith)

round_waits_example : round calm patient third_time 3 none 0 ≡ inr (new (codes "timeout"), 1)
unfolding retryable codes to_lower lower contains message
round_waits_example =
    round_waits calm patient third_time 3 250_000_000 none 0 1 (new (codes "timeout")) refl
      (omega arith) (omega arith) refl refl refl refl

abbrev unanswered : {A : Type 0} → Exec ℕ A
unanswered n = (err (new []), n)

-- A node on the main network with one log.
abbrev transfer : RawLog
transfer = record {
  address = mixed_case;
  topics = [];
  data_bytes = [];
  block_number = 5;
  tx_hash = codes "0x" ++ replicate 64 b'A';
  index = 0;
  removed = false;
}

abbrev node : Node ℕ
node = record {
  runtime = calm;
  connect = λ _ n. (ok tt, n);
  disconnect = λ n. n + 100;
  eth_chain_id = λ _ n. (ok (pos 4663), n + 1);
  header_by_number = λ _ _. unanswered;
  raw_transaction = λ _ _. unanswered;
  transaction_receipt = λ _ _. unanswered;
  raw_balance = λ _ _ _. unanswered;
  raw_logs = λ _ _ n. (ok (transfer ∷ []), n + 1);
  recover_sender = λ _. err (new []);
  hex_to_hash = λ t. t;
  hex_to_address = λ t. t;
}

abbrev options : ℕ → ClientOptions
options expected = record {
  rpc_url = codes "http://node";
  expected_chain = expected;
  request_timeout = pos 0;
  max_retries = pos 2;
  retry_backoff = pos 0;
}

dial_verified_example :
    (with_defaults (options 4663) ≡ with_defaults (options 4663))
    × Reported node (with_defaults (options 4663)).request_timeout (pos 4663) 1
unfolding dial verify_network with_defaults client_chain_id call retry_do
dial_verified_example =
    dial_verified node (options 4663) (with_defaults (options 4663)) 0 1 (λ e. ground arith) refl

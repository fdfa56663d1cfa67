-- ===== src/Telegram/Commands/Connect.antt =====
-- What `/connect` does with what the user typed.
use hoodalpha.Prelude.{
  Bool-cases, length, ◌≡◌, refl, sym, subst, ◌⊎◌, inl, inr, true, false, some, [], ◌∷◌, ◌++◌, arith,
}
use hoodalpha.Go.Text.{
  Text, codes, text_eq, Solid, trim_space_of_Solid, is_space, trim_space, contains-append, contains,
}
use hoodalpha.Go.Error.{Error, message, ok, err}
use hoodalpha.Domain.Address.{matches_hex, quote, parse_address}
use hoodalpha.Domain.Wallet.{new_wallet}
use hoodalpha.App.Ports.{record_audit}
use hoodalpha.App.Wallets.{WalletService, LinkRequest, link_wallet}
use hoodalpha.Telegram.Secret.{is_hex, looks_like_secret, hex-Solid, key-looks_like_secret}
use hoodalpha.Telegram.Commands.{
  CommandDeps, warning, bad_address, connect_reply, link_request, handle_connect,
}
use hoodalpha.Telegram.Table.{Request, arg}

-- A key with either mark or none.
abbrev pub IsKeyText : Text → Text → Type 0
IsKeyText key s = (s ≡ key) ⊎ ((s ≡ codes "0x" ++ key) ⊎ (s ≡ codes "0X" ++ key))

marked-Solid :
    (key : Text) → is_hex key ≡ true → Solid (codes "0x" ++ key) × Solid (codes "0X" ++ key)
unfolding is_hex codes is_space
marked-Solid key h = let k = hex-Solid key h in ((refl, (refl, k)), (refl, (refl, k)))

key_text-Solid : (key s : Text) → is_hex key ≡ true → IsKeyText key s → Solid s
unfolding is_hex
key_text-Solid key s h (inl e) = subst Solid (sym e) (hex-Solid key h)
key_text-Solid key s h (inr (inl e)) = subst Solid (sym e) (marked-Solid key h).0
key_text-Solid key s h (inr (inr e)) = subst Solid (sym e) (marked-Solid key h).1

key_text_some : (key s : Text) → length key ≡ 64 → IsKeyText key s → text_eq s [] ≡ false
unfolding text_eq codes
key_text_some key [] len form = ground arith
key_text_some key (c ∷ s) len form = refl

long_message :
    (t : Text) → contains (codes "invalid evm address") (codes "invalid evm address " ++ t) ≡ true
unfolding codes
long_message t = contains-append (codes "invalid evm address") (codes " " ++ t)

invalid_message :
    (t : Text) (e : Error)
    → parse_address t ≡ err e
    → contains (codes "invalid evm address") (message e) ≡ true
unfolding parse_address message
invalid_message t e bad = elim (Bool-cases (matches_hex 40 (trim_space t))) [
  | inl fits ↦ ground arith
  | inr misfit ↦ ground (arith, long_message (quote (trim_space t)))
]

link_refused_text :
    {S : Type 0} (service : WalletService S) (req : LinkRequest) (s : S) (e : Error)
    → parse_address req.address ≡ err e
    → (link_wallet service req s).0 ≡ err e
unfolding link_wallet new_wallet record_audit
link_refused_text service req s e bad = ground arith

module _ {S : Type 0} (d : CommandDeps S) (req : Request) (s : S) where
  -- A private key that is pasted behind `/connect`, with or without its mark, gets the warning and goes
  -- nowhere: no use case is called and nothing is stored or audited by the handler.
  pub pasted_key_not_stored :
      (key : Text)
      → length key ≡ 64
      → is_hex key ≡ true
      → IsKeyText key (arg req.args 0)
      → handle_connect d req s ≡ (ok warning, s)
  unfolding handle_connect
  pasted_key_not_stored key len hex form =
      let address = arg req.args 0 in
      let trimmed = trim_space_of_Solid address (key_text-Solid key address hex form) in
      let secret =
        key-looks_like_secret address key len hex (subst (IsKeyText key) (sym trimmed) form) in
      rw (trimmed, key_text_some key address len form, secret)

  -- A text that is neither empty nor shaped like a secret, and that `ParseAddress` refuses, is answered
  -- with the help on addresses, whatever the store, the queue and the audit trail do.
  pub invalid_address_answered :
      (service : WalletService S) (e : Error)
      → d.wallets ≡ some service
      → text_eq (trim_space (arg req.args 0)) [] ≡ false
      → looks_like_secret (trim_space (arg req.args 0)) ≡ false
      → parse_address (trim_space (arg req.args 0)) ≡ err e
      → (handle_connect d req s).0 ≡ ok bad_address
  unfolding handle_connect connect_reply
  invalid_address_answered service e wired typed harmless bad =
      let refused =
        link_refused_text service (link_request d req (trim_space (arg req.args 0))) s e bad in
      ground (arith, refused, invalid_message (trim_space (arg req.args 0)) e bad)

-- ===== src/Tests/Cursor.antt =====
-- The texts of cursors and the requests of /wallets at concrete inputs.
use junglegaming_backend_cha.Base.{
  ◌≡◌, refl, ap, arith, ℕ, zero, suc, List, [], ◌∷◌, Option, none, some, length, In, inl, inr, ◌⊎◌,
  true,
}
use junglegaming_backend_cha.AppErr.{Error, ok}
use junglegaming_backend_cha.Base.Int.{pos}
use junglegaming_backend_cha.Consumer.Request.{wire}
use junglegaming_backend_cha.Store.Consistent.{Consistent}
use junglegaming_backend_cha.Store.Hoare.{accounts}
use junglegaming_backend_cha.Http.{JsonBody, single, write_error}
use junglegaming_backend_cha.Http.Access.{Principal, role_internal, has_role}
use junglegaming_backend_cha.Http.Cursor.{Texts, bar, encode_cursor, decode_cursor}
use junglegaming_backend_cha.Http.Cursor.RoundTrip.{IsReadBack, decode-encode_cursor}
use junglegaming_backend_cha.Http.Wallets.{
  OpenJson, WalletRequest, post_wallet, read_ledger, serve_wallets,
}
use junglegaming_backend_cha.Http.Wallets.Safety.{wallets_guarded, wallets_keep_ledger}
use junglegaming_backend_cha.Tests.Samples.{parsing_env, funded}
use junglegaming_backend_cha.Tests.Services.{funded-Consistent}

-- An instant in unary.
abbrev zeros : ℕ → List ℕ
zeros zero = []
zeros (suc n) = 48 ∷ zeros n

abbrev first_byte : List ℕ → Option ℕ
first_byte [] = none
first_byte (c ∷ cs) = some c

abbrev texts : Texts
texts = record {
  encode_base64 = λ b. b;
  decode_base64 = λ b. some b;
  time_text = zeros;
  time_parse = λ b. some (length b);
  uuid_bytes = λ id. id ∷ [];
  uuid_read = first_byte;
}

length-zeros : (n : ℕ) → length (zeros n) ≡ n
length-zeros zero = refl
length-zeros (suc n) = ap suc (length-zeros n)

plain_zeros : (n : ℕ) → ¬ In bar (zeros n)
plain_zeros zero m = m
plain_zeros (suc n) (inl e) = absurd (omega arith)
plain_zeros (suc n) (inr m) = plain_zeros n m

texts-IsReadBack : IsReadBack texts
texts-IsReadBack = record {
  base64 = λ b. refl;
  nothing = refl;
  time = λ t. ap some (length-zeros t);
  no_bar = plain_zeros;
  uuid = λ id. refl;
}

decode-encode_cursor_example :
    decode_cursor texts (encode_cursor texts 3 7) ≡ ok (some (record { created_at = 3; id = 7 }))
decode-encode_cursor_example = decode-encode_cursor texts texts-IsReadBack 3 7

abbrev operator : Principal
operator = record { subject = "operator"; provider_id = ""; roles = role_internal ∷ [] }

abbrev new_wallet : WalletRequest
new_wallet =
    post_wallet (single (record { player_id = "player"; money = wire (some "1.00") (some "BRL") }))

abbrev ledger_request : WalletRequest
ledger_request = read_ledger "wallet" (some (some (pos 2))) []

wallets_guarded_example :
    ((e : Error) × (serve_wallets texts (ok operator) "request-1" ledger_request parsing_env funded
        ≡ (write_error e, funded)))
    ⊎ (p : Principal) × (ok operator ≡ ok p)
      × (has_role p.roles role_internal ≡ true)
      × (((serve_wallets texts (ok operator) "request-1" ledger_request parsing_env funded).1.tables
            ≡ funded.tables)
          ⊎ ((body : JsonBody OpenJson) × (ledger_request ≡ post_wallet body)))
wallets_guarded_example =
    wallets_guarded texts parsing_env (ok operator) "request-1" ledger_request funded

wallets_keep_ledger_example : Consistent (
    accounts (serve_wallets texts (ok operator) "request-1" new_wallet parsing_env funded).1.tables)
wallets_keep_ledger_example =
    wallets_keep_ledger texts parsing_env (ok operator) "request-1" new_wallet funded
      funded-Consistent

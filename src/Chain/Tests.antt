-- ===== src/Chain/Tests.antt =====
-- Runs of the parent chain's edges, with small stand-ins for the third-party modules, and the theorems
-- about them at concrete inputs.
use p2pearl.Prelude.{ℕ, true, false, none, some, List, [], ◌∷◌, ◌≡◌, refl, replicate, leb}
use p2pearl.Prelude.Result.{ok}
use p2pearl.Prelude.Keys.{Bytes, Str}
use p2pearl.Prelude.Hex.{from_hex}
use p2pearl.Prelude.Text.{codes, decimal}
use p2pearl.Pool.Verify.{CoinbaseOutput, pay, op_return}
use p2pearl.Pool.Coinbase.{total_value}
use p2pearl.Chain.Transaction.{
  Token, BitcoinUtils, Transaction, assemble_coinbase_tx, paid, assemble_coinbase_tx-paid,
}
use p2pearl.Chain.Proofs.{
  PearlMining, verify_share, verify_block_solution, Checked, verify_share-Checked,
}
use p2pearl.Chain.Rpc.{http_error, node_rpc_error, call_result}

-- A script is its tokens, and every address has a program of 32 bytes.
abbrev utils : BitcoinUtils
utils = record {
  Script = List Token;
  script = λ tokens. tokens;
  to_hex = λ s. codes "0165";
  from_raw = λ s. [];
  bech32_decode = λ s. some (record { words = 1 ∷ []; is_bech32m = true });
  convertbits = λ ws from to. some (replicate 32 7);
}

abbrev outputs : List CoinbaseOutput
outputs = pay 60 (codes "prl1alice") ∷ pay 40 (codes "prl1bob") ∷ op_return (1 ∷ []) ∷ []

assembled :
    (tx : Transaction utils) × (assemble_coinbase_tx utils outputs 101 none (some (codes "00"))
      ≡ ok tx)
unfolding assemble_coinbase_tx from_hex
assembled = (_, refl)

assemble_coinbase_tx-paid_example : paid utils assembled.0.outputs ≡ total_value outputs
assemble_coinbase_tx-paid_example =
    assemble_coinbase_tx-paid utils outputs 101 none (some (codes "00")) assembled.1

-- A build with the versioned check, which accepts what asks for at most 500.
abbrev mining : PearlMining
mining = record {
  Proof = Str;
  Header = Bytes;
  proof_from_base64 = λ s. ok s;
  header_from_bytes = λ b. ok b;
  verify_for_cert_version =
      some λ version h p bits. elim bits [ none ↦ false | some n ↦ leb n 500 ];
  verify_plain_proof = none;
  verify_with_nbits = none;
}

share_accepted : verify_share mining (1 ∷ []) (codes "AA==") 400 (some 2) ≡ ok true
unfolding verify_share
share_accepted = refl

verify_share-Checked_example : Checked mining (1 ∷ []) (codes "AA==") (some 400)
verify_share-Checked_example =
    verify_share-Checked mining (1 ∷ []) (codes "AA==") 400 (some 2) share_accepted

block_refused : verify_block_solution mining (1 ∷ []) (codes "AA==") (some 2) ≡ ok false
unfolding verify_block_solution
block_refused = refl

http_code :
    call_result ℕ (codes "http://node") (codes "stop") (http_error 401 none)
    ≡ node_rpc_error (codes "stop: HTTP 401")
unfolding call_result decimal
http_code = refl

-- ===== src/Chain/Transaction.antt =====
-- `assemble_coinbase_tx` of p2pearl/chain/coinbase.py. Scripts and bech32 are the third-party
-- bitcoinutils, and a parameter; a transaction is the values that its constructor is given.
use p2pearl.Prelude.{
  ℕ, ◌+◌, Bool, true, false, ◌==◌, if◌then◌else◌, Option, none, some, List, [], ◌∷◌, ◌++◌, length,
  replicate, ◌≡◌, refl, ap, arith, ◌^◌, ◌-◌,
}
use p2pearl.Prelude.Result.{
  Result, ok, raise, value_error, ◌>>=◌, ◌>>◌, guard, or_raise, >>=-eq-ok, ok-injective,
}
use p2pearl.Prelude.Keys.{Bytes, Str}
use p2pearl.Prelude.Hex.{hex, from_hex}
use p2pearl.Prelude.Text.{codes}
use p2pearl.Pool.Verify.{CoinbaseOutput, pay, op_return}
use p2pearl.Pool.Coinbase.{value_of, total_value}

-- What a script is made of: a number, an opcode by name, or data in hexadecimal.
pub data Token : Type 0 where
  number : ℕ → Token
  text : Str → Token

-- What `bech32_decode` returns of an address that it can read: the data, and whether the encoding is
-- bech32m.
pub record Decoded : Type 0 where
  pub words : List ℕ
  pub is_bech32m : Bool

pub record BitcoinUtils : Type 1 where
  pub Script : Type 0
  pub script : List Token → Script
  pub to_hex : Script → Str
  pub from_raw : Str → Script
  pub bech32_decode : Str → Option Decoded
  pub convertbits : List ℕ → ℕ → ℕ → Option Bytes

module _ (b : BitcoinUtils) where
  open b use {Script, script, to_hex, from_raw, bech32_decode, convertbits}

  -- The arguments of `TxInput`, `TxOutput` and `Transaction`.
  pub record TxInput : Type 0 where
    pub txid : Str
    pub txout_index : ℕ
    pub script_sig : Script
    pub sequence : Bytes

  pub record TxOutput : Type 0 where
    pub value : ℕ
    pub script_pubkey : Script

  pub record Transaction : Type 0 where
    pub input : TxInput
    pub outputs : List TxOutput
    pub locktime : Bytes
    pub version : Bytes
    pub has_segwit : Bool
    pub witness : Option Str

  -- The data behind witness version 1.
  abbrev taproot_words : List ℕ → Result (List ℕ)
  taproot_words [] = raise value_error
  taproot_words (w ∷ ws) = if w == 1 then ok ws else raise value_error

  -- `_p2tr_script`
  unfoldable pub p2tr_script : Str → Result Script
  p2tr_script address = do
    decoded ← or_raise (bech32_decode address) value_error
    words ← taproot_words decoded.words
    guard decoded.is_bech32m value_error
    program ← or_raise (convertbits words 5 8) value_error
    guard (length program == 32) value_error
    ok (from_raw (hex (81 ∷ 32 ∷ program)))

  -- `_script_for`
  unfoldable pub script_for : CoinbaseOutput → Result Script
  unfolding p2tr_script
  script_for (op_return bytes) = ok (script (text (codes "OP_RETURN") ∷ text (hex bytes) ∷ []))
  script_for (pay grains address) = p2tr_script address

  -- `[TxOutput(o.value, _script_for(o)) for o in outputs]`
  unfoldable pub tx_outputs : List CoinbaseOutput → Result (List TxOutput)
  unfolding script_for
  tx_outputs [] = ok []
  tx_outputs (o ∷ os) = do
    s ← script_for o
    rest ← tx_outputs os
    ok (record { value = value_of o; script_pubkey = s } ∷ rest)

  abbrev flags_script : Option Str → Result Bytes
  flags_script none = ok []
  flags_script (some flags) = or_raise (from_hex flags) value_error

  abbrev commitment_output : Option Str → List TxOutput
  commitment_output none = []
  commitment_output (some commitment) =
      record {
        value = 0;
        script_pubkey =
            script (text (codes "OP_RETURN") ∷ text (codes "aa21a9ed" ++ commitment) ∷ []);
      }
      ∷ []

  abbrev is_given : Option Str → Bool
  is_given none = false
  is_given (some s) = true

  abbrev reserved_witness : Option Str → Option Str
  reserved_witness none = none
  reserved_witness (some s) = some (hex (replicate 32 0))

  -- `assemble_coinbase_tx`, with the flags of `coinbase_aux`
  unfoldable pub assemble_coinbase_tx :
      List CoinbaseOutput → ℕ → Option Str → Option Str → Result Transaction
  unfolding tx_outputs
  assemble_coinbase_tx outputs height flags commitment = do
    height_script ← or_raise (from_hex (to_hex (script (number height ∷ [])))) value_error
    aux ← flags_script flags
    outs ← tx_outputs outputs
    ok (record {
      input = record {
        txid = replicate 64 48;
        txout_index = 2 ^ 32 - 1;
        script_sig = script (text (hex ((height_script ++ 0 ∷ []) ++ aux)) ∷ []);
        sequence = replicate 4 255;
      };
      outputs = outs ++ commitment_output commitment;
      locktime = replicate 4 0;
      version = 1 ∷ 0 ∷ 0 ∷ 0 ∷ [];
      has_segwit = is_given commitment;
      witness = reserved_witness commitment;
    })

  -- What the outputs of a transaction pay together.
  unfoldable pub paid : List TxOutput → ℕ
  paid [] = 0
  paid (o ∷ os) = o.value + paid os

  paid-append : (xs ys : List TxOutput) → paid (xs ++ ys) ≡ paid xs + paid ys
  unfolding paid
  paid-append [] ys = omega arith
  paid-append (x ∷ xs) ys = omega (arith, paid-append xs ys)

  paid-commitment_output : (c : Option Str) → paid (commitment_output c) ≡ 0
  unfolding paid
  paid-commitment_output none = refl
  paid-commitment_output (some c) = refl

  tx_outputs-paid :
      (os : List CoinbaseOutput) {outs : List TxOutput}
      → tx_outputs os ≡ ok outs
      → (paid outs ≡ total_value os) × (length outs ≡ length os)
  unfolding tx_outputs paid total_value
  tx_outputs-paid [] h = ground arith
  tx_outputs-paid (o ∷ os) h =
      let (s, e, h') = >>=-eq-ok (script_for o) _ h in
      let (rest, e', h'') = >>=-eq-ok (tx_outputs os) _ h' in ground (arith, tx_outputs-paid os e')

  -- A coinbase transaction that could be assembled pays exactly what its outputs say, whatever the
  -- height, the flags and the commitment.
  pub assemble_coinbase_tx-paid :
      (os : List CoinbaseOutput) (height : ℕ) (flags commitment : Option Str) {tx : Transaction}
      → assemble_coinbase_tx os height flags commitment ≡ ok tx
      → paid tx.outputs ≡ total_value os
  unfolding assemble_coinbase_tx
  assemble_coinbase_tx-paid os height flags commitment {tx} h =
      let (script_hex, e, h1) =
        >>=-eq-ok (or_raise (from_hex (to_hex (script (number height ∷ [])))) value_error) _ h in
      let (aux, e', h2) = >>=-eq-ok (flags_script flags) _ h1 in
      let (outs, e'', h3) = >>=-eq-ok (tx_outputs os) _ h2 in
      let same : outs ++ commitment_output commitment ≡ tx.outputs =
        ap (λ (t : Transaction). t.outputs) (ok-injective h3) in
      rw (← same) (
        omega (
          arith,
          paid-append outs (commitment_output commitment),
          paid-commitment_output commitment,
          tx_outputs-paid os e'',
        ))

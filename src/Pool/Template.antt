-- ===== src/Pool/Template.antt =====
-- `ParentTemplate.from_gbt` of p2pearl/daemon.py: what is read of a getblocktemplate answer. A field
-- that is missing is none; a number is a JSON integer, and none of them is negative.
use mathlib.Core.Option
use p2pearl.Prelude.{
  ℕ, true, false, ◌||◌, ◌&&◌, ◌==◌, if◌then◌else◌, Option, none, List, [], ◌∷◌, ◌≡◌, refl,
}
use p2pearl.Prelude.Result.{Result, ok, key_error, value_error, ◌>>=◌, or_raise}
use p2pearl.Prelude.Keys.{Str}
use p2pearl.Prelude.Hex.{from_hex}
use p2pearl.Prelude.Text.{codes, strip, scan_digits}
use p2pearl.Pool.{ParentTemplate}

-- `bits` is a hexadecimal text, or a number.
pub data Bits : Type 0 where
  bits_text : Str → Bits
  bits_number : ℕ → Bits

pub record Gbt : Type 0 where
  pub height : Option ℕ
  pub previousblockhash : Option Str
  pub bits : Option Bits
  pub curtime : Option ℕ
  pub coinbasevalue : Option ℕ
  pub version : Option ℕ
  pub requiredcertversion : Option ℕ
  pub default_witness_commitment : Option Str
  pub coinbaseaux_flags : Option Str
  pub transactions : Option (List Str)

-- `int(bits, 16)`, without a sign
unfoldable pub hex_number : Str → Option ℕ
unfolding scan_digits
hex_number [] = none
hex_number (z ∷ []) = scan_digits 16 false 0 (z ∷ [])
hex_number (z ∷ x ∷ cs) =
    if (z == 48) && ((x == 120) || (x == 88))
    then elim cs [ [] ↦ none | c ∷ rest ↦ scan_digits 16 true 0 (c ∷ rest) ]
    else scan_digits 16 false 0 (z ∷ x ∷ cs)

unfoldable pub read_bits : Bits → Result ℕ
unfolding hex_number strip
read_bits (bits_text s) = or_raise (hex_number (strip s)) value_error
read_bits (bits_number n) = ok n

unfoldable pub from_gbt : Gbt → Result ParentTemplate
unfolding read_bits
from_gbt g = do
  bits ← or_raise g.bits key_error
  height ← or_raise g.height key_error
  prev ← or_raise g.previousblockhash key_error
  prev_block ← or_raise (from_hex prev) value_error
  nbits ← read_bits bits
  curtime ← or_raise g.curtime key_error
  value ← or_raise g.coinbasevalue key_error
  ok (record {
    height = height;
    prev_block = prev_block;
    bits = nbits;
    curtime = curtime;
    coinbase_value = value;
    version = Option.get_or g.version 536_870_912;
    required_cert_version = Option.get_or g.requiredcertversion 1;
    witness_commitment = g.default_witness_commitment;
    coinbaseaux_flags = g.coinbaseaux_flags;
    transactions = Option.get_or g.transactions [];
  })

compact_bits : read_bits (bits_text (codes "1d00ffff")) ≡ ok 486_604_799
unfolding read_bits
compact_bits = refl

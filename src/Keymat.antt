-- ===== src/Keymat.antt =====
-- pkg/keymat/keymat.go: key material. SHA-256 is a parameter, and so are the bytes that
-- `io.ReadFull(randomReader, …)` delivers.
pub mod Encoding
use keychain.Base.{
  ℕ, ◌+◌, ◌*◌, ◌/◌, ◌%◌, ◌^◌, String, Bool, true, false, not, ◌&&◌, Option, none, some, List, [],
  ◌∷◌, Outcome, ok, err, Bytes, Bytes-Comparable, ◌==◌, String-Comparable, if◌then◌else◌,
}
use keychain.Base.Lists.{get_elem?}
use keychain.Store.{Err}
use Prim.Native.String.{◌++◌}
use text.Mathlib.Text.{starts_with}

-- RandomBytes and HashSize
abbrev pub random_bytes : ℕ
random_bytes = 32

abbrev pub hash_size : ℕ
hash_size = 32

abbrev alphabet : List String
alphabet =
    "A" ∷ "B" ∷ "C" ∷ "D" ∷ "E" ∷ "F" ∷ "G" ∷ "H" ∷ "I" ∷ "J" ∷ "K" ∷ "L" ∷ "M" ∷ "N" ∷ "O" ∷ "P"
    ∷ "Q" ∷ "R" ∷ "S" ∷ "T" ∷ "U" ∷ "V" ∷ "W" ∷ "X" ∷ "Y" ∷ "Z" ∷ "2" ∷ "3" ∷ "4" ∷ "5" ∷ "6" ∷ "7"
    ∷ []

abbrev symbol : Option String → String
symbol none = ""
symbol (some s) = s

-- The letter of five bits, the first the most significant.
letter : ℕ → ℕ → ℕ → ℕ → ℕ → String
letter a b c d e = symbol (get_elem? alphabet (a * 16 + b * 8 + c * 4 + d * 2 + e))

bits_of_byte : ℕ → List ℕ → List ℕ
bits_of_byte x rest =
    (x / 128 % 2)
    ∷ (x / 64 % 2)
    ∷ (x / 32 % 2)
    ∷ (x / 16 % 2)
    ∷ (x / 8 % 2)
    ∷ (x / 4 % 2)
    ∷ (x / 2 % 2)
    ∷ (x % 2)
    ∷ rest

bits : Bytes → List ℕ
unfolding bits_of_byte
bits [] = []
bits (x ∷ xs) = bits_of_byte x (bits xs)

-- The last group is filled up with zero bits, and no padding is written.
encode_bits : List ℕ → String
unfolding letter
encode_bits (a ∷ b ∷ c ∷ d ∷ e ∷ rest) = letter a b c d e ++ encode_bits rest
encode_bits (a ∷ b ∷ c ∷ d ∷ []) = letter a b c d 0
encode_bits (a ∷ b ∷ c ∷ []) = letter a b c 0 0
encode_bits (a ∷ b ∷ []) = letter a b 0 0 0
encode_bits (a ∷ []) = letter a 0 0 0 0
encode_bits [] = ""

-- base32.StdEncoding.WithPadding(base32.NoPadding).EncodeToString
unfoldable pub b32_encode : Bytes → String
unfolding bits encode_bits
b32_encode xs = encode_bits (bits xs)

pub data ValidateError : Type 0 where
  empty prefix_missing : ValidateError

-- Validate; `none` is the nil error.
unfoldable pub validate : String → String → Option ValidateError
validate plaintext prefix =
    if plaintext == ""
    then some empty
    else if not (prefix == "") && not (starts_with plaintext prefix)
    then some prefix_missing
    else none

-- HashEqual: `subtle.ConstantTimeCompare` is 1 just for equal contents.
unfoldable pub hash_equal : Bytes → Bytes → Bool
hash_equal a b = a == b

module _ (sum256 : String → Bytes) where
  -- Hash
  unfoldable pub hash : String → Bytes
  hash plaintext = sum256 plaintext

  -- New, given what reading the random bytes returned.
  unfoldable pub new : String → Outcome Err Bytes → Outcome Err (String × Bytes)
  unfolding b32_encode
  new prefix (err e) = err e
  new prefix (ok b) = let plaintext = prefix ++ b32_encode b in ok (plaintext, sum256 plaintext)

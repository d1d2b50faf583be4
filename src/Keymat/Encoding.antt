-- ===== src/Keymat/Encoding.antt =====
-- The length of an encoded payload: 32 random bytes give 52 characters.
use Prim.Native.String.{count, ◌++◌}
use text.Mathlib.TextLemmas.{length-append}
use keychain.Base.{
  ℕ, zero, suc, ◌+◌, ◌*◌, ◌/◌, ◌<◌, String, String-Comparable, Bytes, ◌≡◌, ◌≢◌, refl, ◌∙◌, ap, Bool,
  true, false, List, [], ◌∷◌, arith, ok, if◌then◌else◌, nat_eq,
}
use keychain.Base.Lists.{All, length, get_elem?}
use keychain.Keymat.{
  alphabet, symbol, letter, bits, encode_bits, b32_encode, new, hash, random_bytes,
}

abbrev IsBit : ℕ → Type 0
IsBit b = b < 2

-- Every entry is one character.
abbrev all_single : List String → Bool
all_single [] = true
all_single (s ∷ ss) = if nat_eq (count s) 1 then all_single ss else false

single-get :
    (ss : List String) (i : ℕ)
    → all_single ss ≡ true
    → i < length ss
    → count (symbol (get_elem? ss i)) ≡ 1
single-get [] i h lt = absurd (omega arith)
single-get (s ∷ ss) zero h lt = ground arith
single-get (s ∷ ss) (suc i) h lt = single-get ss i (ground arith) (omega arith)

count-letter :
    (a b c d e : ℕ) → IsBit a → IsBit b → IsBit c → IsBit d → IsBit e → count (letter a b c d e) ≡ 1
unfolding letter
count-letter a b c d e ha hb hc hd he =
    single-get alphabet (a * 16 + b * 8 + c * 4 + d * 2 + e) refl (omega arith)

bits-All : (xs : Bytes) → All IsBit (bits xs)
unfolding bits
bits-All [] = tt
bits-All (x ∷ xs) = (
  omega arith,
  (
    omega arith,
    (
      omega arith,
      (omega arith, (omega arith, (omega arith, (omega arith, (omega arith, bits-All xs))))),
    ),
  ),
)

length-bits : (xs : Bytes) → length (bits xs) ≡ 8 * length xs
unfolding bits
length-bits [] = refl
length-bits (x ∷ xs) = omega (arith, length-bits xs)

count-encode_bits : (bs : List ℕ) → All IsBit bs → count (encode_bits bs) ≡ (length bs + 4) / 5
unfolding encode_bits
count-encode_bits (a ∷ b ∷ c ∷ d ∷ e ∷ rest) h =
    length-append (letter a b c d e) (encode_bits rest)
    ∙ omega (
      arith,
      count-letter a b c d e h.0 h.1.0 h.1.1.0 h.1.1.1.0 h.1.1.1.1.0,
      count-encode_bits rest h.1.1.1.1.1,
    )
count-encode_bits (a ∷ b ∷ c ∷ d ∷ []) h =
    count-letter a b c d 0 h.0 h.1.0 h.1.1.0 h.1.1.1.0 (omega arith)
count-encode_bits (a ∷ b ∷ c ∷ []) h =
    count-letter a b c 0 0 h.0 h.1.0 h.1.1.0 (omega arith) (omega arith)
count-encode_bits (a ∷ b ∷ []) h =
    count-letter a b 0 0 0 h.0 h.1.0 (omega arith) (omega arith) (omega arith)
count-encode_bits (a ∷ []) h =
    count-letter a 0 0 0 0 h.0 (omega arith) (omega arith) (omega arith) (omega arith)
count-encode_bits [] h = refl

pub b32_encode-count : (b : Bytes) → count (b32_encode b) ≡ (8 * length b + 4) / 5
unfolding b32_encode
b32_encode-count b = count-encode_bits (bits b) (bits-All b) ∙ ap (λ n. (n + 4) / 5) (length-bits b)

-- The plaintext of a new key is never empty.
pub plaintext-given :
    (prefix : String) (b : Bytes) → length b ≡ random_bytes → prefix ++ b32_encode b ≢ ""
plaintext-given prefix b full e =
    omega (arith, length-append prefix (b32_encode b), b32_encode-count b, ap count e, full)

-- New, given n random bytes, returns the prefix followed by ⌈8n/5⌉ characters (52 for 32 bytes),
-- and the hash of exactly that plaintext.
pub new-ok :
    (sum256 : String → Bytes) (prefix : String) (b : Bytes)
    → (p : String) × ((new sum256 prefix (ok b) ≡ ok (prefix ++ p, hash sum256 (prefix ++ p)))
        × (count p ≡ (8 * length b + 4) / 5))
unfolding new hash
new-ok sum256 prefix b = (b32_encode b, (refl, b32_encode-count b))

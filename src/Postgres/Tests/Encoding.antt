-- ===== src/Postgres/Tests/Encoding.antt =====
-- A stand-in for encoding/json that reads back the limit references that it wrote: a text is the
-- codes of its characters, each with 1 added, and a 0.
use Prim.Native.Nat.{Ordering, compare}
use Prim.Native.Char.{Char, char, code, IsLt, IsScalar}
use Prim.Native.String.{[] as ε, ◌∷◌ as ◌∷ᶜ◌}
use text.Mathlib.TextEquality.{Char-path}
use keychain.Base.{
  true, ℕ, suc, zero, String, Bytes, ◌≡◌, refl, ap, ◌∙◌, Option, none, some, List, [], ◌∷◌, Outcome,
  ok, err, ◌/◌, ◌*◌,
}
use keychain.Store.{LimitRef, opaque, Err}
use keychain.Postgres.Codec.{Json}
use keychain.Postgres.Engine.{Columns, KeepsRefs}

-- `IsScalar`, taken apart.
abbrev AfterGap : Ordering → Ordering → Type 0
AfterGap Ordering.lt o = IsLt o
AfterGap Ordering.eq _ = ⊥
AfterGap Ordering.gt _ = ⊥

abbrev InParts : Ordering → Ordering → Ordering → Type 0
InParts Ordering.lt _ _ = Unit
InParts Ordering.eq o p = AfterGap o p
InParts Ordering.gt o p = AfterGap o p

abbrev is_lt : (o : Ordering) → Dec (IsLt o)
is_lt Ordering.lt = yes tt
is_lt Ordering.eq = no λ x. x
is_lt Ordering.gt = no λ x. x

abbrev is_after_gap : (o p : Ordering) → Dec (AfterGap o p)
is_after_gap Ordering.lt p = is_lt p
is_after_gap Ordering.eq p = no λ x. x
is_after_gap Ordering.gt p = no λ x. x

abbrev is_in_parts : (o p q : Ordering) → Dec (InParts o p q)
is_in_parts Ordering.lt p q = yes tt
is_in_parts Ordering.eq p q = is_after_gap p q
is_in_parts Ordering.gt p q = is_after_gap p q

abbrev is_scalar : (n : ℕ) → Dec (IsScalar n)
is_scalar n = is_in_parts (compare n 55296) (compare 57343 n) (compare n 1114112)

abbrev char_if : (n : ℕ) → Dec (IsScalar n) → Option Char
char_if n (yes p) = some (char n p)
char_if n (no _) = none

char_if-code : (c : Char) (d : Dec (IsScalar (code c))) → char_if (code c) d ≡ some c
char_if-code c (yes p) = ap some (Char-path (char (code c) p) c refl)
char_if-code (char n p) (no h) = absurd (h p)

abbrev push : Option Char → Option (List String) → Option (List String)
push (some c) (some (s ∷ ss)) = some ((c ∷ᶜ s) ∷ ss)
push _ _ = none

abbrev push_empty : Option (List String) → Option (List String)
push_empty none = none
push_empty (some ss) = some (ε ∷ ss)

abbrev parse : Bytes → Option (List String)
parse [] = some []
parse (zero ∷ bs) = push_empty (parse bs)
parse (suc n ∷ bs) = push (char_if n (is_scalar n)) (parse bs)

abbrev encode : String → Bytes → Bytes
encode ε bs = 0 ∷ bs
encode (c ∷ᶜ s) bs = suc (code c) ∷ encode s bs

parse-encode :
    (s : String) (bs : Bytes) (ss : List String)
    → parse bs ≡ some ss
    → parse (encode s bs) ≡ some (s ∷ ss)
parse-encode ε bs ss e = ap push_empty e
parse-encode (c ∷ᶜ s) bs ss e =
    ap (λ o. push o (parse (encode s bs))) (char_if-code c (is_scalar (code c)))
    ∙ ap (push (some c)) (parse-encode s bs ss e)

abbrev marshal : List LimitRef → Bytes
marshal [] = []
marshal (r ∷ rs) = encode r.limit_id (encode r.scope_key (marshal rs))

abbrev texts : List LimitRef → List String
texts [] = []
texts (r ∷ rs) = r.limit_id ∷ r.scope_key ∷ texts rs

abbrev pairs : List String → List LimitRef
pairs [] = []
pairs (s ∷ []) = []
pairs (s ∷ t ∷ ss) = record { limit_id = s; scope_key = t } ∷ pairs ss

abbrev refs_of : Option (List String) → Outcome Err (List LimitRef)
refs_of none = err (opaque "unexpected end of JSON input")
refs_of (some ss) = ok (pairs ss)

parse-marshal : (rs : List LimitRef) → parse (marshal rs) ≡ some (texts rs)
parse-marshal [] = refl
parse-marshal (r ∷ rs) =
    parse-encode r.limit_id _ _ (parse-encode r.scope_key _ _ (parse-marshal rs))

pairs-texts : (rs : List LimitRef) → pairs (texts rs) ≡ rs
pairs-texts [] = refl
pairs-texts (r ∷ rs) = ap (λ rs. r ∷ rs) (pairs-texts rs)

abbrev pub json : Json
json = record {
  marshal_map = λ m. [];
  unmarshal_map = λ b. [];
  marshal_refs = marshal;
  unmarshal_refs = λ b. refs_of (parse b);
}

-- Microseconds, and a JSON text as it is.
abbrev pub columns : Columns
columns = record {
  timestamptz = λ t. t / 1000 * 1000;
  jsonb = λ b. b;
  holds_text = λ t. true;
  holds_workspace = λ r. true;
  holds_api = λ r. true;
  holds_key = λ r. true;
}

pub json-KeepsRefs : KeepsRefs json columns
json-KeepsRefs = record { refs = λ rs. ap refs_of (parse-marshal rs) ∙ ap ok (pairs-texts rs) }

-- ===== src/Tests/Codes.antt =====
-- Texts for the values of a configuration, and what they are read back as.
use mum.Common.{
  ℕ, zero, suc, ◌≡◌, refl, ap, Bool, true, false, Text, Option, some, none, List, [], ◌∷◌, length,
}
use mum.Mumlib.Config.{ServerConfig}

-- A way to write a value before a text and to read it back.
pub record Code (A : Type 0) : Type 0 where
  pub encode : A → Text → Text
  pub decode : Text → Option (A × Text)
  pub decode-encode : (a : A) (rest : Text) → decode (encode a rest) ≡ some (a, rest)

abbrev decode_number : Text → Option (ℕ × Text)
decode_number [] = none
decode_number (n ∷ rest) = some (n, rest)

abbrev pub number : Code ℕ
number = record {
  encode = λ n rest. n ∷ rest;
  decode = decode_number;
  decode-encode = λ n rest. refl;
}

module _ {A B : Type 0} (a : Code A) (b : Code B) where
  abbrev second_decoded : A → Option (B × Text) → Option ((A × B) × Text)
  second_decoded x none = none
  second_decoded x (some (y, rest)) = some ((x, y), rest)

  abbrev first_decoded : Option (A × Text) → Option ((A × B) × Text)
  first_decoded none = none
  first_decoded (some (x, rest)) = second_decoded x (b.decode rest)

  abbrev pub both : Code (A × B)
  both = record {
    encode = λ p rest. a.encode p.0 (b.encode p.1 rest);
    decode = λ t. first_decoded (a.decode t);
    decode-encode =
        λ p rest. rw (a.decode-encode p.0 (b.encode p.1 rest), b.decode-encode p.1 rest) refl;
  }

module _ {A : Type 0} (a : Code A) where
  abbrev present : Option (A × Text) → Option (Option A × Text)
  present none = none
  present (some (x, rest)) = some (some x, rest)

  abbrev encode_option : Option A → Text → Text
  encode_option none rest = 0 ∷ rest
  encode_option (some x) rest = 1 ∷ a.encode x rest

  abbrev decode_option : Text → Option (Option A × Text)
  decode_option [] = none
  decode_option (zero ∷ rest) = some (none, rest)
  decode_option (suc n ∷ rest) = present (a.decode rest)

  pub decode-encode_option :
      (o : Option A) (rest : Text) → decode_option (encode_option o rest) ≡ some (o, rest)
  decode-encode_option none rest = refl
  decode-encode_option (some x) rest = rw (a.decode-encode x rest) refl

  abbrev pub maybe : Code (Option A)
  maybe = record {
    encode = encode_option;
    decode = decode_option;
    decode-encode = decode-encode_option;
  }

  abbrev encode_all : List A → Text → Text
  encode_all [] rest = rest
  encode_all (x ∷ xs) rest = a.encode x (encode_all xs rest)

  abbrev after_head : A → Option (List A × Text) → Option (List A × Text)
  after_head x none = none
  after_head x (some (xs, rest)) = some (x ∷ xs, rest)

  unfoldable pub decode_all : ℕ → Text → Option (List A × Text)
  decode_all zero t = some ([], t)
  decode_all (suc n) t = elim (a.decode t) [
    | none ↦ none
    | some (x, rest) ↦ after_head x (decode_all n rest)
  ]

  pub decode-encode_all :
      (xs : List A) (rest : Text) → decode_all (length xs) (encode_all xs rest) ≡ some (xs, rest)
  unfolding decode_all
  decode-encode_all [] rest = refl
  decode-encode_all (x ∷ xs) rest =
      rw (a.decode-encode x (encode_all xs rest), decode-encode_all xs rest) refl

  abbrev decode_list : Text → Option (List A × Text)
  decode_list [] = none
  decode_list (n ∷ rest) = decode_all n rest

  abbrev pub several : Code (List A)
  several = record {
    encode = λ xs rest. length xs ∷ encode_all xs rest;
    decode = decode_list;
    decode-encode = decode-encode_all;
  }

-- The same code for values that are written in another way.
module _ {A B : Type 0} (a : Code A) (to : A → B) (from : B → A) where
  abbrev mapped : Option (A × Text) → Option (B × Text)
  mapped none = none
  mapped (some (x, rest)) = some (to x, rest)

  abbrev pub as_code : ((b : B) → to (from b) ≡ b) → Code B
  as_code same = record {
    encode = λ b rest. a.encode (from b) rest;
    decode = λ t. mapped (a.decode t);
    decode-encode =
        λ b rest. rw (a.decode-encode (from b) rest) (ap (λ c. some (c, rest)) (same b));
  }

abbrev flag_of : ℕ → Bool
flag_of zero = false
flag_of (suc n) = true

abbrev of_flag : Bool → ℕ
of_flag false = 0
of_flag true = 1

pub flag-same : (b : Bool) → flag_of (of_flag b) ≡ b
flag-same true = refl
flag-same false = refl

abbrev pub flag : Code Bool
flag = as_code number flag_of of_flag flag-same

abbrev pub word : Code Text
word = several number

abbrev Fields : Type 0
Fields = (Text × Text) × ((Option ℕ × Option Text) × (Option Text × Option Bool))

abbrev to_server : Fields → ServerConfig
to_server f = record {
  name = f.0.0;
  host = f.0.1;
  port = f.1.0.0;
  username = f.1.0.1;
  password = f.1.1.0;
  accept_invalid_cert = f.1.1.1;
}

abbrev from_server : ServerConfig → Fields
from_server s = ((s.name, s.host), ((s.port, s.username), (s.password, s.accept_invalid_cert)))

abbrev pub server : Code ServerConfig
server =
    as_code
      (both (both word word)
        (both (both (maybe number) (maybe word)) (both (maybe word) (maybe flag))))
      to_server from_server λ s. refl

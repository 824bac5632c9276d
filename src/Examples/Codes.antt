-- ===== src/Examples/Codes.antt =====
-- Concrete codes for the crates base64 and near_crypto: bytes as a text of tallies, and one-byte keys.
use Prim.Native.Char.{code}
use Prim.Native.String.{[] as empty, ◌∷◌ as letter}
use near_workspaces_rs.Prelude.{
  ℕ, zero, suc, ◌+◌, ◌≡◌, refl, ap, ◌∙◌, String, [], ◌∷◌, arith, nat_beq, if◌then◌else◌,
}
use near_workspaces_rs.Result.{Result, ok, err, and_then}
use near_workspaces_rs.Primitives.{Bytes}
use near_workspaces_rs.Error.{BoxedError, text}
use near_workspaces_rs.Execution.{Base64}
use near_workspaces_rs.Types.Keys.{KeyCodec}

abbrev tally : ℕ → String → String
tally zero s = letter "1" s
tally (suc n) s = letter "0" (tally n s)

abbrev tallies : Bytes → String
tallies [] = empty
tallies (n ∷ v) = tally n (tallies v)

abbrev read_tallies : ℕ → String → Result Bytes BoxedError
read_tallies n empty = ok []
read_tallies n (letter c s) =
    let more = read_tallies (suc n) s in
    let rest = read_tallies 0 s in
    if nat_beq (code c) 49 then and_then rest (λ v. ok (n ∷ v)) else more

read-tally :
    (a n : ℕ) (s : String)
    → read_tallies a (tally n s) ≡ and_then (read_tallies 0 s) (λ v. ok ((a + n) ∷ v))
read-tally a zero s = rw (plus_zero a) refl
  where
    plus_zero : (a : ℕ) → a + 0 ≡ a
    plus_zero a = omega arith
read-tally a (suc n) s = read-tally (suc a) n s ∙ rw (swap a n) refl
  where
    swap : (a n : ℕ) → suc a + n ≡ a + suc n
    swap a n = omega arith

pub read-tallies : (v : Bytes) → read_tallies 0 (tallies v) ≡ ok v
read-tallies [] = refl
read-tallies (n ∷ v) =
    read-tally 0 n (tallies v) ∙ rw (read-tallies v) (ap (λ m. ok (m ∷ v)) (zero_plus n))
  where
    zero_plus : (n : ℕ) → 0 + n ≡ n
    zero_plus n = omega arith

abbrev pub b64 : Base64
b64 = record {
  encode = tallies;
  decode = read_tallies 0;
  decode-encode = read-tallies;
  encode-nil = refl;
}

abbrev first_byte : Bytes → Result (ℕ × Bytes) BoxedError
first_byte [] = err (text "end of the buffer")
first_byte (b ∷ bs) = ok (b, bs)

abbrev whole : Bytes → Result ℕ BoxedError
whole (t ∷ b ∷ []) = ok b
whole bs = err (text "not a key")

-- A key is a number, and a word is one place of the buffer.
abbrev pub codec : KeyCodec ℕ
codec = record {
  len = λ k. 1;
  serialize = λ k. k ∷ [];
  deserialize = first_byte;
  try_from_slice = whole;
  write_u32 = λ n. n ∷ [];
  read_u32 = first_byte;
  deserialize-serialize = λ k rest. refl;
  read-write_u32 = λ n rest small. refl;
}

-- ===== src/Sandbox/Id.antt =====
-- `NewID` of pkg/sandbox/sandbox.go: six random bytes in hexadecimal. The random source is a stream
-- of bytes, read from a position on; Go's error of `rand.Read` is dropped by the source too.
use vessel.Prelude.Digits.{hex_digit}
use vessel.Prelude.{ℕ, zero, suc, ◌+◌, ◌/◌, ◌%◌, String, List, [], ◌∷◌}

-- hex.EncodeToString
unfoldable pub encode_to_string : List ℕ → String
unfolding hex_digit
encode_to_string [] = ""
encode_to_string (b ∷ bs) =
    String.◌∷◌ (hex_digit (b / 16)) (String.◌∷◌ (hex_digit (b % 16)) (encode_to_string bs))

-- the next `n` bytes of the source
unfoldable pub read : (ℕ → ℕ) → ℕ → ℕ → List ℕ
read random at zero = []
read random at (suc n) = random at ∷ read random (at + 1) n

unfoldable pub new_id : (ℕ → ℕ) → ℕ → String
unfolding read encode_to_string
new_id random at = encode_to_string (read random at 6)

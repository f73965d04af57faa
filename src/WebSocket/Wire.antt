-- ===== src/WebSocket/Wire.antt =====
-- The frame format of RFC 6455, as a description of bytes that does not follow the code.
use angel.Prelude.{
  ℕ, ◌+◌, ◌*◌, ◌^◌, ◌≡◌, ◌<◌, List, [], ◌∷◌, ◌++◌, Bool, true, false, Option, none, some, length,
  be16, be64, ltb, if◌then◌else◌,
}
use angel.WebSocket.{unmask}

pub record Frame : Type 0 where
  pub fin : Bool
  pub opcode : ℕ
  pub key : Option (List ℕ)
  pub payload : List ℕ

abbrev pub bit : Bool → ℕ
bit b = if b then 1 else 0

-- The second byte and the extended length.
abbrev pub size_field : ℕ → ℕ → List ℕ
size_field masked n =
    if ltb n 126
    then (masked * 128 + n) ∷ []
    else if ltb n 65536
    then (masked * 128 + 126) ∷ be16 n
    else (masked * 128 + 127) ∷ be64 n

abbrev pub body : Option (List ℕ) → List ℕ → List ℕ
body none payload = payload
body (some key) payload = key ++ unmask key 0 payload

abbrev pub is_masked : Option (List ℕ) → Bool
is_masked none = false
is_masked (some key) = true

abbrev pub wire : Frame → List ℕ
wire f =
    (bit f.fin * 128 + f.opcode)
    ∷ (size_field (bit (is_masked f.key)) (length f.payload) ++ body f.key f.payload)

abbrev pub All : (ℕ → Type 0) → List ℕ → Type 0
All P [] = Unit {0}
All P (x ∷ xs) = P x × All P xs

abbrev pub IsKey : Option (List ℕ) → Type 0
IsKey none = Unit {0}
IsKey (some key) = (length key ≡ 4) × All (λ x. x < 256) key

-- A frame that a sender may form.
pub record IsFrame (f : Frame) : Type 0 where
  pub opcode_fits : f.opcode < 16
  pub key_fits : IsKey f.key
  pub bytes : All (λ x. x < 256) f.payload
  pub size_fits : length f.payload < 2 ^ 63

abbrev pub concat : List (List ℕ) → List ℕ
concat [] = []
concat (b ∷ bs) = b ++ concat bs

-- ===== src/Handshake/Base64.antt =====
-- `base64Encode` (src/util/base64.cpp). The shifted bytes share no bit, so that `|` adds them.
use xnetty.Prelude.{ℕ, ◌+◌, ◌*◌, ◌/◌, ◌%◌, ◌^◌, List, [], ◌∷◌, ◌++◌, get_or}
use xnetty.Prelude.Text.{Text, codes}

-- `kChars`
abbrev pub chars : Text
chars =
    codes "ABCDEFGHIJKLMNOPQRSTUVWXYZ"
    ++ (codes "abcdefghijklmnopqrstuvwxyz" ++ codes "0123456789+/")

abbrev pub char_at : ℕ → ℕ
char_at i = get_or chars i 0

-- One round for every three bytes, the last one with what is left.
unfoldable pub base64_encode : List ℕ → Text
base64_encode [] = []
base64_encode (a ∷ []) =
    let v = a * 2 ^ 16 in char_at (v / 2 ^ 18 % 64) ∷ char_at (v / 2 ^ 12 % 64) ∷ b'=' ∷ b'=' ∷ []
base64_encode (a ∷ b ∷ []) =
    let v = a * 2 ^ 16 + b * 2 ^ 8 in
    char_at (v / 2 ^ 18 % 64) ∷ char_at (v / 2 ^ 12 % 64) ∷ char_at (v / 2 ^ 6 % 64) ∷ b'=' ∷ []
base64_encode (a ∷ b ∷ c ∷ rest) =
    let v = a * 2 ^ 16 + b * 2 ^ 8 + c in
    char_at (v / 2 ^ 18 % 64)
    ∷ char_at (v / 2 ^ 12 % 64)
    ∷ char_at (v / 2 ^ 6 % 64)
    ∷ char_at (v % 64)
    ∷ base64_encode rest

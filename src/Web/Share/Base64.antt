-- ===== src/Web/Share/Base64.antt =====
-- `btoa` and `atob`, which tools/share.ts calls, on lists of codes: the forgiving base64 of the
-- standard. `none` is the exception.
use new_specter.Common.{
  ℕ, ◌+◌, ◌-◌, ◌*◌, ◌/◌, ◌%◌, Bool, not, ◌&&◌, ◌||◌, Option, none, some, List, [], ◌∷◌, ltb, leb,
  ◌==◌, if◌then◌else◌, ◌>>=◌, length, filter_by,
}

-- A digit of base64.
unfoldable pub digit : ℕ → ℕ
digit n =
    if ltb n 26
    then n + b'A'
    else if ltb n 52
    then (n - 26) + b'a'
    else if ltb n 62
    then (n - 52) + b'0'
    else if n == 62
    then b'+'
    else b'/'

unfoldable pub value_of : ℕ → Option ℕ
value_of c =
    if leb b'A' c && leb c b'Z'
    then some (c - b'A')
    else if leb b'a' c && leb c b'z'
    then some (c - b'a' + 26)
    else if leb b'0' c && leb c b'9'
    then some (c - b'0' + 52)
    else if c == b'+'
    then some 62
    else if c == b'/'
    then some 63
    else none

unfoldable pub btoa : List ℕ → List ℕ
btoa [] = []
btoa (a ∷ []) = digit (a / 4) ∷ digit (a % 4 * 16) ∷ b'=' ∷ b'=' ∷ []
btoa (a ∷ b ∷ []) = digit (a / 4) ∷ digit (a % 4 * 16 + b / 16) ∷ digit (b % 16 * 4) ∷ b'=' ∷ []
btoa (a ∷ b ∷ c ∷ rest) =
    digit (a / 4)
    ∷ digit (a % 4 * 16 + b / 16)
    ∷ digit (b % 16 * 4 + c / 64)
    ∷ digit (c % 64)
    ∷ btoa rest

-- ASCII white space.
abbrev pub is_space : ℕ → Bool
is_space c = c == 9 || c == 10 || c == 12 || c == 13 || c == 32

-- One `=` at the end is removed.
unfoldable pub strip_one : List ℕ → List ℕ
strip_one [] = []
strip_one (c ∷ []) = if c == b'=' then [] else c ∷ []
strip_one (c ∷ d ∷ rest) = c ∷ strip_one (d ∷ rest)

-- Of four digits, of three and of two. A single one is refused.
unfoldable pub groups : List ℕ → Option (List ℕ)
groups [] = some []
groups (a ∷ []) = none
groups (a ∷ b ∷ []) = do x ← value_of a; y ← value_of b; some ((x * 4 + y / 16) ∷ [])
groups (a ∷ b ∷ c ∷ []) = do
  x ← value_of a
  y ← value_of b
  z ← value_of c
  some ((x * 4 + y / 16) ∷ (y % 16 * 16 + z / 4) ∷ [])
groups (a ∷ b ∷ c ∷ d ∷ rest) = do
  x ← value_of a
  y ← value_of b
  z ← value_of c
  w ← value_of d
  bytes ← groups rest
  some ((x * 4 + y / 16) ∷ (y % 16 * 16 + z / 4) ∷ (z % 4 * 64 + w) ∷ bytes)

unfoldable pub atob : List ℕ → Option (List ℕ)
atob text =
    let t = filter_by (λ c. not (is_space c)) text in
    groups (if length t % 4 == 0 then strip_one (strip_one t) else t)

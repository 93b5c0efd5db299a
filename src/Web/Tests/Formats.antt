-- ===== src/Web/Tests/Formats.antt =====
-- A way to write values as texts that is read back, for runs on concrete inputs: for instances of
-- what the models take `JSON` to be.
use Prim.Native.Char.{code}
use new_specter.Common.{
  ℕ, zero, suc, String, ◌≡◌, refl, ap, Option, none, some, List, [], ◌∷◌, ◌==◌, if◌then◌else◌,
  ◌>>=◌, length,
}

pub record Format (A : Type 0) : Type 0 where
  pub put : A → String → String
  pub get : String → Option (A × String)
  pub law : (a : A) (rest : String) → get (put a rest) ≡ some (a, rest)

abbrev put_text : String → String → String
put_text String.[] rest = String.◌∷◌ "0" rest
put_text (String.◌∷◌ c s) rest = String.◌∷◌ "1" (String.◌∷◌ c (put_text s rest))

abbrev get_text : String → Option (String × String)
get_text String.[] = none
get_text (String.◌∷◌ m String.[]) = if code m == b'0' then some (String.[], String.[]) else none
get_text (String.◌∷◌ m (String.◌∷◌ c s)) =
    let tail = get_text s in
    if code m == b'0'
    then some (String.[], String.◌∷◌ c s)
    else tail >>= λ r. some (String.◌∷◌ c r.0, r.1)

pub get-put_text : (s rest : String) → get_text (put_text s rest) ≡ some (s, rest)
get-put_text String.[] String.[] = refl
get-put_text String.[] (String.◌∷◌ c rest) = refl
get-put_text (String.◌∷◌ c s) rest = rw (get-put_text s rest) refl

abbrev pub text_format : Format String
text_format = record { put = put_text; get = get_text; law = get-put_text }

abbrev pub put_nat : ℕ → String → String
put_nat zero rest = String.◌∷◌ "0" rest
put_nat (suc n) rest = String.◌∷◌ "1" (put_nat n rest)

abbrev pub get_nat : String → Option (ℕ × String)
get_nat String.[] = none
get_nat (String.◌∷◌ m s) =
    let tail = get_nat s in
    if code m == b'0' then some (0, s) else tail >>= λ r. some (suc r.0, r.1)

pub get-put_nat : (n : ℕ) (rest : String) → get_nat (put_nat n rest) ≡ some (n, rest)
get-put_nat zero rest = refl
get-put_nat (suc n) rest = rw (get-put_nat n rest) refl

abbrev pub nat_format : Format ℕ
nat_format = record { put = put_nat; get = get_nat; law = get-put_nat }

module _ {A B : Type 0} (F : Format A) (G : Format B) where
  put_pair : A × B → String → String
  put_pair (a, b) rest = F.put a (G.put b rest)

  get_pair : String → Option ((A × B) × String)
  get_pair s = F.get s >>= λ r. G.get r.1 >>= λ q. some ((r.0, q.0), q.1)

  get-put_pair : (x : A × B) (rest : String) → get_pair (put_pair x rest) ≡ some (x, rest)
  unfolding put_pair get_pair
  get-put_pair (a, b) rest = rw (F.law a (G.put b rest), G.law b rest) refl

  pub pair_format : Format (A × B)
  pair_format = record { put = put_pair; get = get_pair; law = get-put_pair }

module _ {A B : Type 0} (F : Format A) (to : B → A) (from : A → B)
    (same : (b : B) → from (to b) ≡ b) where
  put_mapped : B → String → String
  put_mapped b rest = F.put (to b) rest

  get_mapped : String → Option (B × String)
  get_mapped s = F.get s >>= λ r. some (from r.0, r.1)

  get-put_mapped : (b : B) (rest : String) → get_mapped (put_mapped b rest) ≡ some (b, rest)
  unfolding put_mapped get_mapped
  get-put_mapped b rest = rw (F.law (to b) rest) (ap (λ x. some (x, rest)) (same b))

  pub mapped : Format B
  mapped = record { put = put_mapped; get = get_mapped; law = get-put_mapped }

module _ {A : Type 0} (F : Format A) where
  unfoldable pub put_items : List A → String → String
  put_items [] rest = rest
  put_items (a ∷ as') rest = F.put a (put_items as' rest)

  get_items : ℕ → String → Option (List A × String)
  get_items zero s = some ([], s)
  get_items (suc n) s = F.get s >>= λ r. get_items n r.1 >>= λ q. some (r.0 ∷ q.0, q.1)

  get-put_items :
      (xs : List A) (rest : String) → get_items (length xs) (put_items xs rest) ≡ some (xs, rest)
  unfolding put_items get_items
  get-put_items [] rest = refl
  get-put_items (a ∷ xs) rest = rw (F.law a (put_items xs rest), get-put_items xs rest) refl

  unfoldable pub put_list : List A → String → String
  put_list xs rest = put_nat (length xs) (put_items xs rest)

  pub get_list : String → Option (List A × String)
  get_list s = get_nat s >>= λ r. get_items r.0 r.1

  pub get-put_list : (xs : List A) (rest : String) → get_list (put_list xs rest) ≡ some (xs, rest)
  unfolding put_list get_list
  get-put_list xs rest = rw (get-put_nat (length xs) (put_items xs rest)) (get-put_items xs rest)

  unfoldable pub list_format : Format (List A)
  list_format = record { put = put_list; get = get_list; law = get-put_list }

-- ===== src/Prelude/Text.antt =====
-- Go strings as lists of bytes, compared as Go compares them.
use Prim.Native.Nat.{ℕ, ◌+◌, ◌-◌, ◌/◌, ◌%◌}
use Prim.Native.Char.{code}
use Prim.Native.String.{String}
use mathlib.Core.Path.{◌≡◌, refl}
use mathlib.Core.Logic.{◌↔◌}
use mathlib.Core.Bool.{Bool, true, false, ◌&&◌, ◌||◌}
use mathlib.Core.List.{List, [], ◌∷◌}
use native.Mathlib.Omega.{arith}
use metrics_pipeline_go.Prelude.Lists.{all}
use metrics_pipeline_go.Prelude.Tests.{ltb, leb, ◌==◌, if◌then◌else◌}

abbrev pub Str : Type 0
Str = List ℕ

-- The bytes of an ASCII literal.
abbrev pub codes : String → Str
codes String.[] = []
codes (String.◌∷◌ c s) = code c ∷ codes s

unfoldable pub str_eq : Str → Str → Bool
str_eq [] [] = true
str_eq [] (y ∷ t) = false
str_eq (x ∷ s) [] = false
str_eq (x ∷ s) (y ∷ t) = (x == y) && str_eq s t

pub str_eq_refl : (s : Str) → str_eq s s ≡ true
unfolding str_eq
str_eq_refl [] = refl
str_eq_refl (x ∷ s) = ground (arith, str_eq_refl s)

pub eq_of_str_eq : (s t : Str) → str_eq s t ≡ true → s ≡ t
unfolding str_eq
eq_of_str_eq [] [] h = refl
eq_of_str_eq [] (y ∷ t) h = cc
eq_of_str_eq (x ∷ s) [] h = cc
eq_of_str_eq (x ∷ s) (y ∷ t) h = ground (arith, eq_of_str_eq s t)

pub str_eq_iff : (s t : Str) → (str_eq s t ≡ true) ↔ (s ≡ t)
str_eq_iff s t = (eq_of_str_eq s t, λ e. rw (← e) (str_eq_refl s))

pub str_eq_comm : (s t : Str) → str_eq s t ≡ str_eq t s
unfolding str_eq
str_eq_comm [] [] = refl
str_eq_comm [] (y ∷ t) = refl
str_eq_comm (x ∷ s) [] = refl
str_eq_comm (x ∷ s) (y ∷ t) = ground (arith, str_eq_comm s t)

-- Byte order, as `<` on Go strings and `sort.Strings`.
unfoldable pub str_leb : Str → Str → Bool
str_leb [] t = true
str_leb (x ∷ s) [] = false
str_leb (x ∷ s) (y ∷ t) = let rest = str_leb s t in ltb x y || ((x == y) && rest)

-- The byte class [A-Za-z0-9].
abbrev pub is_alphanumeric : ℕ → Bool
is_alphanumeric c =
    (leb b'A' c && leb c b'Z') || (leb b'a' c && leb c b'z') || (leb b'0' c && leb c b'9')

-- The byte class [A-Za-z0-9._-].
abbrev pub is_name_byte : ℕ → Bool
is_name_byte c = is_alphanumeric c || (c == b'.') || (c == b'_') || (c == b'-')

-- Every byte is that of an ASCII character.
unfoldable pub is_ascii : Str → Bool
is_ascii [] = true
is_ascii (c ∷ s) = ltb c 128 && is_ascii s

pub is_name_byte-is_ascii : (s : Str) → all is_name_byte s ≡ true → is_ascii s ≡ true
unfolding is_ascii
is_name_byte-is_ascii [] h = refl
is_name_byte-is_ascii (c ∷ s) h = ground (arith, is_name_byte-is_ascii s)

-- The digits of `hex.EncodeToString`.
abbrev pub hex_digit : ℕ → ℕ
hex_digit d = if ltb d 10 then b'0' + d else b'a' + (d - 10)

-- `hex.EncodeToString`.
unfoldable pub hex_of : List ℕ → Str
hex_of [] = []
hex_of (b ∷ bytes) = hex_digit (b / 16) ∷ hex_digit (b % 16) ∷ hex_of bytes

pub hex_of-is_ascii :
    (bytes : List ℕ) → all (λ b. ltb b 256) bytes ≡ true → is_ascii (hex_of bytes) ≡ true
unfolding is_ascii hex_of
hex_of-is_ascii [] h = refl
hex_of-is_ascii (b ∷ bytes) h = ground (arith, hex_of-is_ascii bytes)

-- `sort.Strings`, by insertion.
unfoldable pub insert_sorted : Str → List Str → List Str
insert_sorted s [] = s ∷ []
insert_sorted s (t ∷ ts) =
    let rest = insert_sorted s ts in if str_leb s t then s ∷ t ∷ ts else t ∷ rest

unfoldable pub sort_strings : List Str → List Str
unfolding insert_sorted str_leb
sort_strings [] = []
sort_strings (s ∷ ss) = insert_sorted s (sort_strings ss)

unfoldable pub contains : List Str → Str → Bool
unfolding str_eq
contains [] s = false
contains (t ∷ ts) s = str_eq t s || contains ts s

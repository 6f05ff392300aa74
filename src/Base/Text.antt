-- ===== src/Base/Text.antt =====
-- The functions of Rust's `str` that the gateway calls.
use Prim.Native.Char.{Char, code}
use Prim.Native.String.{◌++◌ as append}
use cld_gateway.Base.{
  ℕ, zero, suc, ◌+◌, ◌/◌, ◌%◌, ◌<◌, String, ◌≡◌, refl, Bool, true, false, ◌&&◌, ◌||◌, arith, ltb,
  leb, ◌==◌, if◌then◌else◌, List, [], ◌∷◌, map, inl, inr, Bool-cases, ap,
}

-- The code points of Unicode's White_Space, `char::is_whitespace`.
unfoldable pub is_whitespace : ℕ → Bool
is_whitespace c =
    (leb 9 c && leb c 13)
    || (c == 0x20
        || (c == 0x85
            || (c == 0xa0
                || (c == 0x1680
                    || ((leb 0x2000 c && leb c 0x200a)
                        || (c == 0x2028
                            || (c == 0x2029 || (c == 0x202f || (c == 0x205f || c == 0x3000)))))))))

unfoldable pub trim_start : String → String
unfolding is_whitespace
trim_start String.[] = ""
trim_start (String.◌∷◌ c s) = if is_whitespace (code c) then trim_start s else String.◌∷◌ c s

-- A character and the trimmed rest.
abbrev trim_before : Char → String → String
trim_before c String.[] = if is_whitespace (code c) then "" else String.◌∷◌ c ""
trim_before c (String.◌∷◌ d s) = String.◌∷◌ c (String.◌∷◌ d s)

unfoldable pub trim_end : String → String
unfolding is_whitespace
trim_end String.[] = ""
trim_end (String.◌∷◌ c s) = trim_before c (trim_end s)

unfoldable pub trim : String → String
unfolding trim_start trim_end
trim s = trim_end (trim_start s)

abbrev pub is_empty : String → Bool
is_empty String.[] = true
is_empty (String.◌∷◌ c s) = false

-- `s.trim().is_empty()`.
unfoldable pub is_blank : String → Bool
unfolding trim
is_blank s = is_empty (trim s)

-- `char::is_ascii_alphanumeric`.
unfoldable pub is_ascii_alphanumeric : ℕ → Bool
is_ascii_alphanumeric c =
    (leb b'0' c && leb c b'9') || ((leb b'A' c && leb c b'Z') || (leb b'a' c && leb c b'z'))

-- The characters that pass a test.
unfoldable pub filter_chars : (ℕ → Bool) → String → String
filter_chars p String.[] = ""
filter_chars p (String.◌∷◌ c s) =
    let rest = filter_chars p s in if p (code c) then String.◌∷◌ c rest else rest

-- The code points of a text.
unfoldable pub codes : String → List ℕ
codes String.[] = []
codes (String.◌∷◌ c s) = code c ∷ codes s

-- `u8::to_ascii_lowercase` on a code point.
abbrev pub to_ascii_lowercase : ℕ → ℕ
to_ascii_lowercase c = if leb b'A' c && leb c b'Z' then c + 32 else c

pub digit : ℕ → String
digit d =
    if d == 0
    then "0"
    else if d == 1
    then "1"
    else if d == 2
    then "2"
    else if d == 3
    then "3"
    else if d == 4
    then "4"
    else if d == 5
    then "5"
    else if d == 6
    then "6"
    else if d == 7
    then "7"
    else if d == 8
    then "8"
    else "9"

decimal_fuel : ℕ → ℕ → String
decimal_fuel zero n = ""
decimal_fuel (suc f) n =
    let rest = decimal_fuel f (n / 10) in if ltb n 10 then digit n else append rest (digit (n % 10))

-- The decimal digits of a number, as `format!` prints it.
unfoldable pub decimal : ℕ → String
unfolding decimal_fuel digit
decimal n = decimal_fuel (suc n) n

-- Any fuel above the number gives the same text.
decimal_fuel_enough : (f g n : ℕ) → n < f → n < g → decimal_fuel f n ≡ decimal_fuel g n
unfolding decimal_fuel
decimal_fuel_enough zero g n h k = elim h [ ]
decimal_fuel_enough (suc f) zero n h k = elim k [ ]
decimal_fuel_enough (suc f) (suc g) n h k = elim (Bool-cases (ltb n 10)) [
  | inl small ↦ rw small
  | inr big ↦ rw big (rw (decimal_fuel_enough f g (n / 10) (ground arith) (ground arith)))
]

-- The fuel of `decimal` is enough: its text is that of the division by ten.
pub decimal_lem :
    (n : ℕ) → decimal n ≡ (if ltb n 10 then digit n else append (decimal (n / 10)) (digit (n % 10)))
unfolding decimal_fuel decimal
decimal_lem n = elim (Bool-cases (ltb n 10)) [
  | inl small ↦ rw small
  | inr big ↦ rw big (
      ap (λ t. append t (digit (n % 10)))
        (decimal_fuel_enough n (suc (n / 10)) (n / 10) (ground arith) (omega arith)))
]

same_codes : List ℕ → List ℕ → Bool
same_codes [] [] = true
same_codes [] (d ∷ ds) = false
same_codes (c ∷ cs) [] = false
same_codes (c ∷ cs) (d ∷ ds) = c == d && same_codes cs ds

ends_with_codes : List ℕ → List ℕ → Bool
unfolding same_codes
ends_with_codes [] suffix = same_codes [] suffix
ends_with_codes (c ∷ cs) suffix = same_codes (c ∷ cs) suffix || ends_with_codes cs suffix

-- `s.to_ascii_lowercase().ends_with(suffix)`.
unfoldable pub lowercase_ends_with : String → String → Bool
unfolding ends_with_codes codes
lowercase_ends_with s suffix = ends_with_codes (map to_ascii_lowercase (codes s)) (codes suffix)

trim_text : trim " \n a b\t " ≡ "a b"
unfolding trim
trim_text = refl

decimal_text : decimal 4070 ≡ "4070"
unfolding decimal
decimal_text = refl

pdf_suffix : lowercase_ends_with "/tmp/A.PdF" ".pdf" ≡ true
unfolding lowercase_ends_with
pdf_suffix = refl

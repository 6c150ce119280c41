-- ===== src/PyValue/Text.antt =====
-- Texts as code points: `str.lower()` on ASCII, and `int()` on a decimal text.
use Prim.Native.Char.{code}
use ramulator.Prelude.{
  ℕ, ◌+◌, ◌-◌, ◌*◌, String, ◌≡◌, refl, Bool, true, false, ◌&&◌, ◌||◌, Option, none, some, List, [],
  ◌∷◌, map, any, all, str_eq, leb, ◌==◌, if◌then◌else◌,
}
use ramulator.Prelude.Int.{ℤ, pos, negsuc, sub_ℕ}

-- `String` has its own `[]` and `∷`.
abbrev pub codes : String → List ℕ
codes String.[] = []
codes (String.◌∷◌ c s) = code c ∷ codes s

pub lower_code : ℕ → ℕ
lower_code c = if leb b'A' c && leb c b'Z' then c + 32 else c

-- `x in xs`
abbrev pub contains : String → List String → Bool
contains x = any (λ y. str_eq y x)

-- `c.isspace()`
is_space : ℕ → Bool
is_space c =
    (leb 9 c && leb c 13)
    || (leb 28 c && leb c 32)
    || c == 133
    || c == 160
    || c == 5760
    || (leb 8192 c && leb c 8202)
    || c == 8232
    || c == 8233
    || c == 8239
    || c == 8287
    || c == 12288

-- `not s.strip()`
unfoldable pub is_blank_text : String → Bool
unfolding is_space
is_blank_text s = all is_space (codes s)

-- The code points of `s.lower()`.
unfoldable pub lower : String → List ℕ
unfolding lower_code
lower s = map lower_code (codes s)

is_blank : ℕ → Bool
is_blank c = (leb 9 c && leb c 13) || c == 32

is_digit : ℕ → Bool
is_digit c = leb b'0' c && leb c b'9'

-- The rest of a numeral behind a digit: digits, single underscores between them, then blanks.
digits : ℕ → Bool → List ℕ → Option ℕ
digits n after_digit [] = if after_digit then some n else none
digits n after_digit (c ∷ cs) =
    let digit = digits (n * 10 + (c - b'0')) true cs in
    let underscore = digits n false cs in
    if is_digit c
    then digit
    else if c == b'_' && after_digit
    then underscore
    else if after_digit && is_blank c
    then (if blanks cs then some n else none)
    else none
  where
    blanks : List ℕ → Bool
    blanks [] = true
    blanks (d ∷ ds) = is_blank d && blanks ds

numeral : List ℕ → Option ℕ
unfolding digits is_digit is_blank
numeral cs = digits 0 false cs

signed : List ℕ → Option ℤ
unfolding numeral is_blank
signed [] = none
signed (c ∷ cs) =
    let skip = signed cs in
    if is_blank c
    then skip
    else if c == b'-'
    then elim (numeral cs) [ none ↦ none | some n ↦ some (sub_ℕ 0 n) ]
    else if c == b'+'
    then elim (numeral cs) [ none ↦ none | some n ↦ some (pos n) ]
    else elim (numeral (c ∷ cs)) [ none ↦ none | some n ↦ some (pos n) ]

-- `int(text)`, `none` where it raises `ValueError`.
pub parse_int : String → Option ℤ
unfolding signed
parse_int s = signed (codes s)

parse_int_test : parse_int " -1_024 " ≡ some (negsuc 1023)
unfolding parse_int
parse_int_test = refl

parse_int_blank : parse_int "12 3" ≡ none
unfolding parse_int
parse_int_blank = refl

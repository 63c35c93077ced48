-- ===== src/Prelude/Text.antt =====
-- Texts as the lists of their codes, for what Go's `strings` and `strconv` packages do to them.
-- The texts that the program searches are taken to be ASCII, where bytes, runes and codes agree.
use Prim.Native.Char.{code}
use Prim.Native.Nat.{ℕ, ◌+◌, ◌-◌, ◌*◌}
use Prim.Native.String.{String}
use mathlib.Core.Bool.{Bool, true, false, ◌&&◌, ◌||◌}
use mathlib.Core.List.{List, [], ◌∷◌}
use mathlib.Core.Option.{Option, none, some}
use email_delivery_engine.Prelude.Tests.{ltb, leb, ◌==◌, if◌then◌else◌}
use email_delivery_engine.Prelude.Int.{ℤ, pos, ◌-ℤ◌}

abbrev pub codes : String → List ℕ
codes String.[] = []
codes (String.◌∷◌ c s) = code c ∷ codes s

-- `strings.HasPrefix`, with the prefix first.
unfoldable pub starts_with : List ℕ → List ℕ → Bool
starts_with [] s = true
starts_with (p ∷ ps) [] = false
starts_with (p ∷ ps) (c ∷ cs) = p == c && starts_with ps cs

-- `strings.Contains(s, p)`.
unfoldable pub contains : List ℕ → List ℕ → Bool
unfolding starts_with
contains [] p = starts_with p []
contains (c ∷ cs) p = starts_with p (c ∷ cs) || contains cs p

abbrev pub lower_code : ℕ → ℕ
lower_code c = if leb b'A' c && leb c b'Z' then c + 32 else c

-- `strings.ToLower` on ASCII.
unfoldable pub to_lower : List ℕ → List ℕ
to_lower [] = []
to_lower (c ∷ cs) = lower_code c ∷ to_lower cs

-- The white space of `strings.Fields` below 128: tab to carriage return, and the space.
abbrev pub is_space : ℕ → Bool
is_space c = (leb 9 c && leb c 13) || c == 32

-- `strings.Fields(s)[0]`, or `none` where there is no field.
unfoldable pub word : List ℕ → List ℕ
word [] = []
word (c ∷ cs) = if is_space c then [] else c ∷ word cs

unfoldable pub first_field : List ℕ → Option (List ℕ)
unfolding word
first_field [] = none
first_field (c ∷ cs) =
    let rest = first_field cs in if is_space c then rest else some (word (c ∷ cs))

-- The digits of `strconv.Atoi`, most significant first, onto `acc`.
unfoldable pub digits_value : ℕ → List ℕ → Option ℕ
digits_value acc [] = some acc
digits_value acc (c ∷ cs) =
    let rest = digits_value (acc * 10 + (c - b'0')) cs in
    if leb b'0' c && leb c b'9' then rest else none

abbrev pub int64_limit : ℕ
int64_limit = 9223372036854775808

abbrev unsigned_value : List ℕ → Option ℕ
unsigned_value [] = none
unsigned_value (c ∷ cs) = digits_value 0 (c ∷ cs)

abbrev in_range : Bool → ℕ → Option ℤ
in_range false n = if ltb n int64_limit then some (pos n) else none
in_range true n = if leb n int64_limit then some (pos 0 -ℤ pos n) else none

abbrev signed_value : Bool → List ℕ → Option ℤ
signed_value negative cs = elim (unsigned_value cs) [ none ↦ none | some n ↦ in_range negative n ]

-- `strconv.Atoi`: an optional sign, then digits; `none` is a syntax or range error.
unfoldable pub atoi : List ℕ → Option ℤ
unfolding digits_value
atoi [] = none
atoi (c ∷ cs) =
    if c == b'-'
    then signed_value true cs
    else if c == b'+'
    then signed_value false cs
    else signed_value false (c ∷ cs)

-- ===== src/Metrics/Page.antt =====
-- `Handler` of data-plane/internal/metrics/metrics.go: the page of all metrics, as the codes of its
-- text. Names and help texts are ASCII. A value is a whole number below 2 ^ 53, so its shortest
-- digits are its decimal digits without the trailing zeros.
pub mod Scrape
pub mod RoundTrip
pub mod Samples
pub mod Order
use email_delivery_engine.Prelude.{
  ℕ, ◌-◌, String, Bool, true, false, ◌&&◌, ◌||◌, List, [], ◌∷◌, ◌++◌, map, ltb, leb, ◌==◌, str_eq,
  if◌then◌else◌, length,
}
use email_delivery_engine.Prelude.Text.{codes}
use email_delivery_engine.Prelude.Decimal.{decimal}
use email_delivery_engine.Prelude.Sorting.{sort_by}
use email_delivery_engine.Metrics.{MetricType, counter, gauge, Entry, Registry, entry_of, or_new}

abbrev pub type_name : MetricType → String
type_name counter = "counter"
type_name gauge = "gauge"

abbrev is_none_left : List ℕ → Bool
is_none_left [] = true
is_none_left (c ∷ cs) = false

-- The digits without the zeros behind.
unfoldable pub strip_zeros : List ℕ → List ℕ
strip_zeros [] = []
strip_zeros (c ∷ cs) =
    let rest = strip_zeros cs in if c == b'0' && is_none_left rest then [] else c ∷ rest

-- The digits with a point behind the first, if there are more.
abbrev pub pointed : List ℕ → List ℕ
pointed [] = []
pointed (d ∷ []) = d ∷ []
pointed (d ∷ e ∷ rest) = d ∷ b'.' ∷ e ∷ rest

-- An exponent has at least two digits.
abbrev pub exponent : ℕ → List ℕ
exponent e = if ltb e 10 then b'0' ∷ decimal e else decimal e

unfoldable pub scientific : List ℕ → List ℕ
unfolding strip_zeros
scientific ds = pointed (strip_zeros ds) ++ (b'e' ∷ b'+' ∷ exponent (length ds - 1))

-- The verb %g: decimal digits, or an exponent from 10 ^ 6 on.
unfoldable pub format_g : ℕ → List ℕ
unfolding scientific
format_g n = if leb (length (decimal n)) 6 then decimal n else scientific (decimal n)

-- A line of the page in front of the rest.
abbrev pub line : List ℕ → List ℕ → List ℕ
line text rest = text ++ (b'\n' ∷ rest)

-- "# HELP %s %s"
abbrev pub help_text : String → String → List ℕ
help_text name help = codes "# HELP " ++ (codes name ++ (b' ' ∷ codes help))

-- "# TYPE %s %s"
abbrev pub type_text : String → MetricType → List ℕ
type_text name t = codes "# TYPE " ++ (codes name ++ (b' ' ∷ codes (type_name t)))

-- "%s %g"
unfoldable pub value_text : String → ℕ → List ℕ
unfolding format_g
value_text name v = codes name ++ (b' ' ∷ format_g v)

-- The help line stands only where there is a help text.
abbrev pub with_help : String → String → List ℕ → List ℕ
with_help name help rest = if str_eq help "" then rest else line (help_text name help) rest

-- `sort.Strings`: the order of the codes.
unfoldable pub codes_leb : List ℕ → List ℕ → Bool
codes_leb [] ys = true
codes_leb (x ∷ xs) [] = false
codes_leb (x ∷ xs) (y ∷ ys) = let rest = codes_leb xs ys in if x == y then rest else ltb x y

abbrev pub name_leb : String → String → Bool
name_leb x y = codes_leb (codes x) (codes y)

-- The names of the registry.
abbrev pub names_of : Registry → List String
names_of [] = []
names_of ((k, e) ∷ r) = k ∷ names_of r

-- The copy that is taken under the lock. Every name is one of the registry's, so each look-up finds
-- its entry.
unfoldable pub snapshot : Registry → Registry
unfolding sort_by entry_of
snapshot r = map (λ name. (name, or_new counter (entry_of name r))) (sort_by name_leb (names_of r))

-- The loop over the snapshot.
unfoldable pub render : Registry → List ℕ
unfolding value_text
render [] = []
render ((name, e) ∷ rest) =
    with_help name e.help
      (line (type_text name e.typ) (line (value_text name e.value) (render rest)))

unfoldable pub page : Registry → List ℕ
unfolding snapshot render
page r = render (snapshot r)

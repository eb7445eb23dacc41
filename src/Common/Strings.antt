-- ===== src/Common/Strings.antt =====
-- Text as the list of its UTF-16 code units, and the string functions that the source calls.
use Prim.Native.Char.{code}
use Prim.Native.String.{String}
use Prim.Native.Nat.{ℕ, ◌+◌}
use mathlib.Core.Path.{◌≡◌, refl}
use mathlib.Core.Logic.{◌↔◌}
use mathlib.Core.Bool.{Bool, true, false, ◌&&◌, ◌||◌}
use mathlib.Core.Option.{Option, none, some}
use mathlib.Core.List.{List, [], ◌∷◌, ◌++◌}
use native.Mathlib.Omega.{arith}
use patchlab.Common.Tests.{leb, ◌==◌, if◌then◌else◌}
use patchlab.Common.Lists.{drop, length}

abbrev pub Text : Type 0
Text = List ℕ

-- A literal; its code points are its code units where they lie below 0x10000.
abbrev pub codes : String → Text
codes String.[] = []
codes (String.◌∷◌ c s) = code c ∷ codes s

-- `a === b`
unfoldable pub text_eq : Text → Text → Bool
text_eq [] [] = true
text_eq (x ∷ xs) (y ∷ ys) = x == y && text_eq xs ys
text_eq [] (_ ∷ _) = false
text_eq (_ ∷ _) [] = false

pub text_eq_iff : (s t : Text) → (text_eq s t ≡ true) ↔ (s ≡ t)
unfolding text_eq
text_eq_iff [] [] = (λ _. refl, λ _. refl)
text_eq_iff [] (y ∷ ys) = (λ h. cc, λ h. cc)
text_eq_iff (x ∷ xs) [] = (λ h. cc, λ h. cc)
text_eq_iff (x ∷ xs) (y ∷ ys) = ground (arith, text_eq_iff xs ys)

pub text_eq_refl : (s : Text) → text_eq s s ≡ true
text_eq_refl s = (text_eq_iff s s).1 refl

-- `set.has(key)`, `array.includes(key)`
unfoldable pub has : List Text → Text → Bool
has [] k = false
has (x ∷ xs) k = text_eq x k || has xs k

-- `text.startsWith(prefix)`
unfoldable pub starts_with : Text → Text → Bool
starts_with text [] = true
starts_with [] (p ∷ ps) = false
starts_with (c ∷ cs) (p ∷ ps) = c == p && starts_with cs ps

-- A prefix test holds exactly where the prefix can be split off.
pub starts_with_split :
    (text prefix : Text)
    → starts_with text prefix ≡ true
    → text ≡ prefix ++ drop (length prefix) text
unfolding starts_with
starts_with_split text [] h = refl
starts_with_split [] (p ∷ ps) h = cc
starts_with_split (c ∷ cs) (p ∷ ps) h = ground (arith, starts_with_split cs ps)

pub starts_with-append : (prefix rest : Text) → starts_with (prefix ++ rest) prefix ≡ true
unfolding starts_with
starts_with-append [] rest = refl
starts_with-append (p ∷ ps) rest = ground (arith, starts_with-append ps rest)

-- The head and the tail of `split`: the text before the first `sep`, and the parts after it.
abbrev pub cons_head : ℕ → List Text → List Text
cons_head c [] = (c ∷ []) ∷ []
cons_head c (p ∷ ps) = (c ∷ p) ∷ ps

-- `text.split(sep)` at a separator of one code unit; never empty
unfoldable pub split : ℕ → Text → List Text
split sep [] = [] ∷ []
split sep (c ∷ cs) = let rest = split sep cs in if c == sep then [] ∷ rest else cons_head c rest

-- `parts.join(sep)`
unfoldable pub join : Text → List Text → Text
join sep [] = []
join sep (p ∷ []) = p
join sep (p ∷ q ∷ ps) = p ++ (sep ++ join sep (q ∷ ps))

abbrev pub is_digit : ℕ → Bool
is_digit c = leb b'0' c && leb c b'9'

-- ASCII part of `toLowerCase`
abbrev pub lower : ℕ → ℕ
lower c = if leb b'A' c && leb c b'Z' then c + 32 else c

pub lower_idem : (c : ℕ) → lower (lower c) ≡ lower c
lower_idem c = ground arith

abbrev pub cut_cons : ℕ → Option (Text × Text) → Option (Text × Text)
cut_cons c none = none
cut_cons c (some (before, after)) = some (c ∷ before, after)

-- The first place where `needle`, which is not empty, stands in a text: what stands before it, and
-- the rest from it on; the `substring`s on either side of `indexOf`.
unfoldable pub cut : Text → Text → Option (Text × Text)
cut needle [] = none
cut needle (c ∷ cs) =
    let rest = cut needle cs in
    if starts_with (c ∷ cs) needle then some ([], c ∷ cs) else cut_cons c rest

pub has-append : (xs ys : List Text) (k : Text) → has (xs ++ ys) k ≡ (has xs k || has ys k)
unfolding has
has-append [] ys k = refl
has-append (x ∷ xs) ys k = ground (arith, has-append xs ys k)

-- No element stands twice.
abbrev pub IsDistinct : List Text → Type 0
IsDistinct [] = Unit
IsDistinct (x ∷ xs) = (has xs x ≡ false) × IsDistinct xs

pub IsDistinct-append :
    (xs : List Text) (y : Text) → IsDistinct xs → has xs y ≡ false → IsDistinct (xs ++ y ∷ [])
unfolding has
IsDistinct-append [] y h k = (refl, tt)
IsDistinct-append (x ∷ xs) y (fresh, h) k = (
  ground (arith, has-append xs (y ∷ []) x, text_eq_iff x y, text_eq_iff y x, fresh),
  IsDistinct-append xs y h (ground arith),
)

-- The white space and line terminators of `\s` and `trim`.
abbrev pub is_space : ℕ → Bool
is_space c =
    (leb 9 c && leb c 13)
    || (c == 32
        || (c == 160
            || (c == 5760
                || ((leb 8192 c && leb c 8202)
                    || (c == 8232
                        || (c == 8233
                            || (c == 8239 || (c == 8287 || (c == 12288 || c == 65279)))))))))

abbrev cons_unless_space : ℕ → Text → Text
cons_unless_space c [] = if is_space c then [] else c ∷ []
cons_unless_space c (d ∷ ds) = c ∷ d ∷ ds

unfoldable pub trim_end : Text → Text
trim_end [] = []
trim_end (c ∷ cs) = cons_unless_space c (trim_end cs)

unfoldable pub trim_start : Text → Text
trim_start [] = []
trim_start (c ∷ cs) = let rest = trim_start cs in if is_space c then rest else c ∷ cs

unfoldable pub trim : Text → Text
trim text = trim_end (trim_start text)

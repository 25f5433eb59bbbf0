-- ===== src/Prelude/Strings.antt =====
-- Text as the list of its code points, and the functions of Go's `strings` that the program calls.
use Prim.Native.Char.{code}
use Prim.Native.String.{String}
use Prim.Native.Nat.{ℕ, ◌+◌}
use mathlib.Core.Path.{◌≡◌, refl}
use mathlib.Core.Logic.{◌↔◌}
use mathlib.Core.Bool.{Bool, true, false, ◌&&◌, ◌||◌}
use mathlib.Core.List.{List, [], ◌∷◌, ◌++◌, reverse}
use native.Mathlib.Omega.{arith}
use polarix.Prelude.Tests.{if◌then◌else◌, leb, ◌==◌}

abbrev pub Text : Type 0
Text = List ℕ

-- A literal of the source.
abbrev pub str : String → Text
str String.[] = []
str (String.◌∷◌ c s) = code c ∷ str s

unfoldable pub same : Text → Text → Bool
same [] [] = true
same (a ∷ s) (b ∷ t) = (a == b) && same s t
same _ _ = false

pub same_iff : (s t : Text) → (same s t ≡ true) ↔ (s ≡ t)
unfolding same
same_iff [] [] = (λ _. refl, λ _. refl)
same_iff [] (b ∷ t) = (λ e. cc, λ e. cc)
same_iff (a ∷ s) [] = (λ e. cc, λ e. cc)
same_iff (a ∷ s) (b ∷ t) = (λ e. ground (arith, same_iff s t), λ e. ground (arith, same_iff s t))

pub same_refl : (s : Text) → same s s ≡ true
same_refl s = (same_iff s s).1 refl

abbrev pub is_empty : Text → Bool
is_empty [] = true
is_empty (_ ∷ _) = false

-- unicode.IsSpace
unfoldable pub is_space : ℕ → Bool
is_space c =
    (leb 9 c && leb c 13)
    || (c == 32)
    || (c == 0x85)
    || (c == 0xa0)
    || (c == 0x1680)
    || (leb 0x2000 c && leb c 0x200a)
    || (c == 0x2028)
    || (c == 0x2029)
    || (c == 0x202f)
    || (c == 0x205f)
    || (c == 0x3000)

pub trim_left : Text → Text
trim_left [] = []
trim_left (c ∷ s) = let rest = trim_left s in if is_space c then rest else c ∷ s

-- strings.TrimSpace
unfoldable pub trim_space : Text → Text
unfolding trim_left is_space
trim_space s = reverse (trim_left (reverse (trim_left s)))

abbrev pub lower : ℕ → ℕ
lower c =
    if leb b'A' c && leb c b'Z'
    then c + 32
    else if c == 0x130
    then b'i'
    else if c == 0x212a
    then b'k'
    else c

-- strings.ToLower, for a comparison with an ASCII text: a letter whose lower case is not ASCII is left.
unfoldable pub ascii_lower : Text → Text
ascii_lower [] = []
ascii_lower (c ∷ s) = lower c ∷ ascii_lower s

-- A word that has been read so far goes in front of the words that follow.
abbrev pub flush : Text → List Text → List Text
flush [] ws = ws
flush (c ∷ w) ws = (c ∷ w) ∷ ws

fields_from : Text → Text → List Text
fields_from w [] = flush w []
fields_from w (c ∷ s) =
    let skip = flush w (fields_from [] s) in
    let take = fields_from (w ++ c ∷ []) s in if is_space c then skip else take

-- strings.Fields
unfoldable pub fields : Text → List Text
unfolding fields_from is_space
fields s = fields_from [] s

split_from : ℕ → Text → Text → List Text
split_from sep w [] = w ∷ []
split_from sep w (c ∷ s) =
    let cut = w ∷ split_from sep [] s in
    let take = split_from sep (w ++ c ∷ []) s in if c == sep then cut else take

-- strings.Split at a separator of one byte: there is always a first part.
unfoldable pub split : ℕ → Text → List Text
unfolding split_from
split sep s = split_from sep [] s

unfoldable pub contains_byte : ℕ → Text → Bool
contains_byte sep [] = false
contains_byte sep (c ∷ s) = (c == sep) || contains_byte sep s

before : ℕ → Text → Text
before sep [] = []
before sep (c ∷ s) = if c == sep then [] else c ∷ before sep s

after : ℕ → Text → Text
after sep [] = []
after sep (c ∷ s) = let rest = after sep s in if c == sep then s else rest

-- strings.SplitN (s, sep, 2) where s contains sep.
unfoldable pub split2 : ℕ → Text → Text × Text
unfolding before after
split2 sep s = (before sep s, after sep s)

-- strings.Join
unfoldable pub join : Text → List Text → Text
join sep [] = []
join sep (w ∷ []) = w
join sep (w ∷ v ∷ ws) = w ++ (sep ++ join sep (v ∷ ws))

-- strings.HasPrefix (s, p)
unfoldable pub has_prefix : Text → Text → Bool
has_prefix s [] = true
has_prefix [] (_ ∷ _) = false
has_prefix (c ∷ s) (d ∷ p) = (c == d) && has_prefix s p

-- strings.HasSuffix (s, p)
unfoldable pub has_suffix : Text → Text → Bool
unfolding has_prefix
has_suffix s p = has_prefix (reverse s) (reverse p)

-- ===== src/Common/Texts.antt =====
-- Python's str as the list of its code points, with the tests and cuts that the program makes.
use Prim.Native.Nat.{ℕ, zero, suc, ◌+◌, ◌/◌, ◌%◌}
use Prim.Native.Char.{code}
use Prim.Native.String.{String}
use mathlib.Core.Path.{◌≡◌, refl}
use mathlib.Core.Logic.{◌↔◌}
use mathlib.Core.Bool.{Bool, true, false, ◌&&◌, ◌||◌}
use mathlib.Core.Option.{Option, none, some}
use mathlib.Core.List.{List, [], ◌∷◌, ◌++◌}
use native.Mathlib.Omega.{arith}
use email_extractor.Common.Tests.{◌==◌, ltb, leb, if◌then◌else◌}
use email_extractor.Common.Lists.{All}
use email_extractor.Common.Dict.{Eq}

abbrev pub Text : Type 0
Text = List ℕ

-- The code points of a literal.
abbrev pub txt : String → Text
txt String.[] = []
txt (String.◌∷◌ c s) = code c ∷ txt s

unfoldable pub eq_text : Text → Text → Bool
eq_text [] [] = true
eq_text (a ∷ s) (b ∷ t) = a == b && eq_text s t
eq_text _ _ = false

pub eq_text-eq : (s t : Text) → eq_text s t ≡ true → s ≡ t
unfolding eq_text
eq_text-eq [] [] h = refl
eq_text-eq [] (b ∷ t) h = cc
eq_text-eq (a ∷ s) [] h = cc
eq_text-eq (a ∷ s) (b ∷ t) h = ground (arith, eq_text-eq s t)

pub eq_text_refl : (s : Text) → eq_text s s ≡ true
unfolding eq_text
eq_text_refl [] = refl
eq_text_refl (a ∷ s) = ground (arith, eq_text_refl s)

pub eq_text_iff : (s t : Text) → (eq_text s t ≡ true) ↔ (s ≡ t)
eq_text_iff s t = (eq_text-eq s t, λ e. rw e (eq_text_refl t))

instance abbrev pub text_eq : Eq Text
text_eq = record { beq = eq_text; beq_iff = eq_text_iff }

-- `x in xs` for a tuple or set of texts
unfoldable pub mem_text : Text → List Text → Bool
unfolding eq_text
mem_text s [] = false
mem_text s (t ∷ ts) = eq_text s t || mem_text s ts

-- `s.startswith(p)`
unfoldable pub starts_with : Text → Text → Bool
starts_with p [] = elim p [ [] ↦ true | _ ∷ _ ↦ false ]
starts_with p (c ∷ s) = elim p [ [] ↦ true | d ∷ q ↦ d == c && starts_with q s ]

-- `s.endswith(p)`
unfoldable pub ends_with : Text → Text → Bool
unfolding eq_text
ends_with p [] = eq_text p []
ends_with p (c ∷ s) = eq_text p (c ∷ s) || ends_with p s

-- `p in s`
unfoldable pub contains : Text → Text → Bool
unfolding starts_with
contains p [] = starts_with p []
contains p (c ∷ s) = starts_with p (c ∷ s) || contains p s

-- `bool(x)` of an optional string: neither None nor empty.
abbrev pub is_truthy : Option Text → Bool
is_truthy none = false
is_truthy (some []) = false
is_truthy (some (_ ∷ _)) = true

-- No text of a list occurs twice.
abbrev pub Distinct : List Text → Type 0
Distinct [] = Unit
Distinct (x ∷ xs) = (mem_text x xs ≡ false) × Distinct xs

pub mem_text-none :
    (x : Text) (xs : List Text) → All (λ y. mem_text y (x ∷ []) ≡ false) xs → mem_text x xs ≡ false
unfolding mem_text
mem_text-none x [] h = refl
mem_text-none x (y ∷ xs) h =
    ground (arith, h.0, eq_text_iff x y, eq_text_iff y x, mem_text-none x xs h.1)

unfoldable pub decimal_from : (fuel n : ℕ) → Text
decimal_from zero n = []
decimal_from (suc fuel) n = elim (ltb n 10) [
  | true ↦ (48 + n) ∷ []
  | false ↦ decimal_from fuel (n / 10) ++ ((48 + n % 10) ∷ [])
]

-- `str(n)`: a number has no more digits than its own count and one.
unfoldable pub decimal : ℕ → Text
unfolding decimal_from
decimal n = decimal_from (suc n) n

-- `sep.join(texts)`
unfoldable pub join : Text → List Text → Text
join sep [] = []
join sep (t ∷ []) = t
join sep (t ∷ (u ∷ ts)) = t ++ (sep ++ join sep (u ∷ ts))

-- `x or ""`
abbrev pub text_or : Option Text → Text
text_or none = []
text_or (some t) = t

-- `c.isspace()`
unfoldable pub is_space : ℕ → Bool
is_space c =
    (leb 9 c && leb c 13)
    || ((leb 28 c && leb c 32)
        || (c == 133
            || (c == 160
                || (c == 5760
                    || ((leb 8192 c && leb c 8202)
                        || (c == 8232
                            || (c == 8233 || (c == 8239 || (c == 8287 || c == 12288)))))))))

-- `s.lstrip()` and `s.rstrip()` of the characters that pass a test
unfoldable pub strip_left : (ℕ → Bool) → Text → Text
strip_left p [] = []
strip_left p (c ∷ s) = let rest = strip_left p s in if p c then rest else c ∷ s

unfoldable pub strip_right : (ℕ → Bool) → Text → Text
strip_right p [] = []
strip_right p (c ∷ s) = elim (strip_right p s) [
  | [] ↦ if p c then [] else c ∷ []
  | d ∷ rest ↦ c ∷ (d ∷ rest)
]

-- `s.strip()`
unfoldable pub strip : Text → Text
unfolding strip_left strip_right is_space
strip s = strip_right is_space (strip_left is_space s)

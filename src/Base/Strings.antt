-- ===== src/Base/Strings.antt =====
-- JavaScript strings as lists of UTF-16 code units, with the string methods and the white space
-- class `\s` that the program uses.
use Prim.Native.Nat.{ℕ}
use Prim.Native.Char.{code}
use Prim.Native.String.{String}
use mathlib.Core.Path.{◌≡◌, refl, sym, ap, ◌∙◌}
use mathlib.Core.Logic.{◌↔◌, ◌≢◌, inl, inr}
use mathlib.Core.Bool.{Bool, true, false, not, ◌&&◌, ◌||◌}
use mathlib.Core.List.{List, [], ◌∷◌, ◌++◌, append_assoc}
use native.Mathlib.Omega.{arith}
use docent.Base.Tests.{Bool-cases, leb, ◌==◌, if◌then◌else◌, if_elim, ==_iff}
use docent.Base.Lists.{all_of, All}

abbrev pub Text : Type 0
Text = List ℕ

-- A literal; its characters lie in the basic plane, where a code unit is a code point.
abbrev pub codes : String → Text
codes String.[] = []
codes (String.◌∷◌ c s) = code c ∷ codes s

-- What `\s` matches and `trim` removes.
unfoldable pub is_space : ℕ → Bool
is_space c =
    (leb 9 c && leb c 13)
    || c == 32
    || c == 0xa0
    || c == 0x1680
    || (leb 0x2000 c && leb c 0x200a)
    || c == 0x2028
    || c == 0x2029
    || c == 0x202f
    || c == 0x205f
    || c == 0x3000
    || c == 0xfeff

unfoldable pub trim_start : Text → Text
trim_start [] = []
trim_start (c ∷ s) = if is_space c then trim_start s else c ∷ s

unfoldable pub trim_end : Text → Text
trim_end [] = []
trim_end (c ∷ s) = if all_of is_space (c ∷ s) then [] else c ∷ trim_end s

-- `s.trim()`
unfoldable pub trim : Text → Text
unfolding trim_start trim_end is_space
trim s = trim_end (trim_start s)

-- `lines.join(separator)`
unfoldable pub join : Text → List Text → Text
join sep [] = []
join sep (line ∷ []) = line
join sep (line ∷ next ∷ lines) = line ++ sep ++ join sep (next ∷ lines)

-- `a === b`
unfoldable pub text_eq : Text → Text → Bool
text_eq [] [] = true
text_eq [] (_ ∷ _) = false
text_eq (_ ∷ _) [] = false
text_eq (a ∷ s) (b ∷ t) = a == b && text_eq s t

pub text_eq_iff : (s t : Text) → (text_eq s t ≡ true) ↔ (s ≡ t)
unfolding text_eq
text_eq_iff [] [] = ground arith
text_eq_iff [] (_ ∷ _) = ground arith
text_eq_iff (_ ∷ _) [] = ground arith
text_eq_iff (a ∷ s) (b ∷ t) = ground (arith, text_eq_iff s t)

pub text_eq_refl : (s : Text) → text_eq s s ≡ true
text_eq_refl s = (text_eq_iff s s).1 refl

-- `s.startsWith(prefix)`
unfoldable pub starts_with : Text → Text → Bool
starts_with s [] = true
starts_with [] (_ ∷ _) = false
starts_with (a ∷ s) (b ∷ prefix) = a == b && starts_with s prefix

trim_end-spaces : (s : Text) → all_of is_space (trim_end s) ≡ all_of is_space s
unfolding trim_end
trim_end-spaces [] = refl
trim_end-spaces (c ∷ s) = ground (arith, trim_end-spaces s)

pub trim_end-trim_end : (s : Text) → trim_end (trim_end s) ≡ trim_end s
unfolding trim_end
trim_end-trim_end [] = refl
trim_end-trim_end (c ∷ s) = ground (arith, trim_end-trim_end s, trim_end-spaces s)

trim_start-trim_end : (s : Text) → trim_start (trim_end (trim_start s)) ≡ trim_end (trim_start s)
unfolding trim_start trim_end
trim_start-trim_end [] = refl
trim_start-trim_end (c ∷ s) = ground (arith, trim_start-trim_end s)

pub trim-trim : (s : Text) → trim (trim s) ≡ trim s
unfolding trim
trim-trim s = rw trim_start-trim_end (trim_end-trim_end (trim_start s))

-- A character joins the piece behind it.
unfoldable pub add_char : ℕ → List Text → List Text
add_char c [] = (c ∷ []) ∷ []
add_char c (piece ∷ pieces) = (c ∷ piece) ∷ pieces

-- `s.split(separator)` at a single character
unfoldable pub split_on : ℕ → Text → List Text
split_on separator [] = [] ∷ []
split_on separator (c ∷ s) =
    let rest = split_on separator s in if c == separator then [] ∷ rest else add_char c rest

split_on-ne-nil : (separator : ℕ) (s : Text) → split_on separator s ≢ []
unfolding split_on add_char
split_on-ne-nil separator [] h = cc
split_on-ne-nil separator (c ∷ s) h = ground arith

pub join-add_char :
    (c : ℕ) (sep : Text) (pieces : List Text) → join sep (add_char c pieces) ≡ c ∷ join sep pieces
unfolding join add_char
join-add_char c sep [] = refl
join-add_char c sep (piece ∷ []) = refl
join-add_char c sep (piece ∷ next ∷ pieces) = refl

join-break :
    (sep : Text) (pieces : List Text)
    → pieces ≢ []
    → join sep ([] ∷ pieces) ≡ sep ++ join sep pieces
unfolding join
join-break sep [] h = absurd (h refl)
join-break sep (piece ∷ pieces) h = refl

-- Splitting loses nothing.
join-split_on : (separator : ℕ) (s : Text) → join (separator ∷ []) (split_on separator s) ≡ s
unfolding split_on
join-split_on separator [] = unfold join in refl
join-split_on separator (c ∷ s) =
    if_elim (λ pieces. join (separator ∷ []) pieces ≡ c ∷ s) (c == separator) _ _
      (λ e.
        join-break (separator ∷ []) (split_on separator s) (split_on-ne-nil separator s)
        ∙ (rw (join-split_on separator s) (rw ((==_iff c separator).0 e))))
      (λ _.
        join-add_char c (separator ∷ []) (split_on separator s)
        ∙ ap (λ (t : Text). c ∷ t) (join-split_on separator s))

-- A piece that holds no separator.
abbrev pub lacks : ℕ → Text → Bool
lacks separator piece = all_of (λ c. not (c == separator)) piece

split_on-piece :
    (separator : ℕ) (piece : Text)
    → lacks separator piece ≡ true
    → split_on separator piece ≡ piece ∷ []
unfolding split_on add_char
split_on-piece separator [] h = refl
split_on-piece separator (c ∷ piece) h = ground (arith, split_on-piece separator piece)

split_on-append :
    (separator : ℕ) (piece rest : Text)
    → lacks separator piece ≡ true
    → split_on separator (piece ++ (separator ∷ rest)) ≡ piece ∷ split_on separator rest
unfolding split_on add_char
split_on-append separator [] rest h = ground arith
split_on-append separator (c ∷ piece) rest h = ground (arith, split_on-append separator piece rest)

-- Joined pieces are split again where they were joined.
pub split_on-join :
    (separator : ℕ) (piece : Text) (pieces : List Text)
    → All (λ p. lacks separator p ≡ true) (piece ∷ pieces)
    → split_on separator (join (separator ∷ []) (piece ∷ pieces)) ≡ piece ∷ pieces
unfolding join
split_on-join separator piece [] (h, _) = split_on-piece separator piece h
split_on-join separator piece (next ∷ pieces) (h, all) =
    ap (split_on separator)
      (append_assoc piece (separator ∷ []) (join (separator ∷ []) (next ∷ pieces)))
    ∙ split_on-append separator piece (join (separator ∷ []) (next ∷ pieces)) h
    ∙ ap (λ (ps : List Text). piece ∷ ps) (split_on-join separator next pieces all)

spaces-append :
    (s : Text) (c : ℕ) (t : Text) → is_space c ≡ false → all_of is_space (s ++ (c ∷ t)) ≡ false
spaces-append [] c t h = ground arith
spaces-append (d ∷ s) c t h = ground (arith, spaces-append s c t h)

-- Nothing before a character that is no white space is trimmed off at the end.
pub trim_end-append :
    (s : Text) (c : ℕ) (t : Text)
    → is_space c ≡ false
    → trim_end (s ++ (c ∷ t)) ≡ s ++ (c ∷ trim_end t)
unfolding trim_end
trim_end-append [] c t h = ground arith
trim_end-append (d ∷ s) c t h = ground (arith, trim_end-append s c t h, spaces-append (d ∷ s) c t h)

pub text_eq-ne : (s t : Text) → s ≢ t → text_eq s t ≡ false
text_eq-ne s t h = elim (Bool-cases (text_eq s t)) [
  | inl e ↦ absurd (h ((text_eq_iff s t).0 e))
  | inr e ↦ e
]

pub text_differs : (s t : Text) → text_eq s t ≡ false → s ≢ t
text_differs s t h e = false≢true (sym h ∙ (text_eq_iff s t).1 e)
  where
    false≢true : false ≢ true
    false≢true k = absurd (cc)

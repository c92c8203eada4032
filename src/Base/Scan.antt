-- ===== src/Base/Scan.antt =====
-- Global regular expressions as matchers: a matcher gives the length of the match that begins where
-- the text begins, 0 for none.
pub mod Digits
use Prim.Native.Nat.{ℕ, zero, suc, ◌+◌, ◌-◌, ◌*◌, ◌/◌, ◌%◌}
use mathlib.Core.Path.{◌≡◌, refl}
use mathlib.Core.Bool.{Bool, not, ◌&&◌}
use mathlib.Core.List.{List, [], ◌∷◌, ◌++◌}
use docent.Base.Tests.{leb, ◌==◌, if◌then◌else◌}
use docent.Base.Lists.{take}
use docent.Base.Strings.{Text}

abbrev pub drop {ℓ} : {A : Type ℓ} → ℕ → List A → List A
drop zero xs = xs
drop (suc n) [] = []
drop (suc n) (x ∷ xs) = drop n xs

-- `s.replace(/…/g, f)`, where the callback also gets the number of the match. `skip` counts the
-- characters of the current match that are left.
unfoldable pub replace_from : (Text → ℕ) → (ℕ → Text → Text) → ℕ → ℕ → Text → Text
replace_from matcher f i skip [] = []
replace_from matcher f i (suc skip) (c ∷ s) = replace_from matcher f i skip s
replace_from matcher f i zero (c ∷ s) = elim (matcher (c ∷ s)) [
  | zero ↦ c ∷ replace_from matcher f i zero s
  | suc k ↦ f i (take (suc k) (c ∷ s)) ++ replace_from matcher f (suc i) k s
]

abbrev pub replace_all : (Text → ℕ) → (Text → Text) → Text → Text
replace_all matcher f s = replace_from matcher (λ _ m. f m) 0 0 s

-- A property of what follows a match and of what follows none.
pub match_elim {κ} :
    (P : Text → Type κ) (n : ℕ) (x : Text) (y : ℕ → Text)
    → (n ≡ 0 → P x)
    → ((k : ℕ) → n ≡ suc k → P (y k))
    → P (elim n [ zero ↦ x | suc k ↦ y k ])
match_elim P zero x y h k = h refl
match_elim P (suc n) x y h k = k n refl

-- A character where no match begins stays, and a match is replaced.
pub replace_from-kept :
    (matcher : Text → ℕ) (f : ℕ → Text → Text) (i c : ℕ) (s : Text)
    → matcher (c ∷ s) ≡ 0
    → replace_from matcher f i 0 (c ∷ s) ≡ c ∷ replace_from matcher f i 0 s
unfolding replace_from
replace_from-kept matcher f i c s h = rw (h, replace_from)

pub replace_from-replaced :
    (matcher : Text → ℕ) (f : ℕ → Text → Text) (i c k : ℕ) (s : Text)
    → matcher (c ∷ s) ≡ suc k
    → replace_from matcher f i 0 (c ∷ s)
      ≡ f i (take (suc k) (c ∷ s)) ++ replace_from matcher f (suc i) k s
unfolding replace_from
replace_from-replaced matcher f i c k s h = rw (h, replace_from)

-- `s.matchAll(/…/g)`
unfoldable pub matches_from : (Text → ℕ) → ℕ → Text → List Text
matches_from matcher skip [] = []
matches_from matcher (suc skip) (c ∷ s) = matches_from matcher skip s
matches_from matcher zero (c ∷ s) = elim (matcher (c ∷ s)) [
  | zero ↦ matches_from matcher zero s
  | suc k ↦ take (suc k) (c ∷ s) ∷ matches_from matcher k s
]

abbrev pub matches_of : (Text → ℕ) → Text → List Text
matches_of matcher s = matches_from matcher 0 s

-- A character under the flag `i`, and a literal in small letters with it.
unfoldable pub lower_case : ℕ → ℕ
lower_case c = if leb 65 c && leb c 90 then c + 32 else c

unfoldable pub literal : Text → Text → ℕ
literal [] s = 0
literal (p ∷ []) [] = 0
literal (p ∷ []) (c ∷ s) = if c == p then 1 else 0
literal (p ∷ q ∷ pattern) [] = 0
literal (p ∷ q ∷ pattern) (c ∷ s) =
    let rest = literal (q ∷ pattern) s in
    if c == p then (elim rest [ zero ↦ 0 | suc k ↦ suc (suc k) ]) else 0

unfoldable pub literal_i : Text → Text → ℕ
unfolding literal lower_case
literal_i pattern s = literal pattern (lowered s)
  where
    lowered : Text → Text
    lowered [] = []
    lowered (c ∷ s) = lower_case c ∷ lowered s

-- The first of two matchers, and a matcher followed by another.
abbrev pub either : (Text → ℕ) → (Text → ℕ) → Text → ℕ
either p q s = elim (p s) [ zero ↦ q s | suc k ↦ suc k ]

abbrev pub followed_by : (Text → ℕ) → (Text → ℕ) → Text → ℕ
followed_by p q s = elim (p s) [
  | zero ↦ 0
  | suc k ↦ elim (q (drop (suc k) s)) [ zero ↦ 0 | suc m ↦ suc k + suc m ]
]

-- A greedy run of characters that pass a test.
unfoldable pub run_of : (ℕ → Bool) → Text → ℕ
run_of p [] = 0
run_of p (c ∷ s) = let rest = run_of p s in if p c then suc rest else 0

-- `X*Y` for a run of characters none of which can begin `Y`.
abbrev pub run_then : (ℕ → Bool) → (Text → ℕ) → Text → ℕ
run_then p q s = elim (q (drop (run_of p s) s)) [ zero ↦ 0 | suc m ↦ run_of p s + suc m ]

-- `[\s\S]*?X`: up to the end of the first match of `X`.
unfoldable pub up_to : (Text → ℕ) → Text → ℕ
up_to p [] = 0
up_to p (c ∷ s) =
    let rest = up_to p s in
    elim (p (c ∷ s)) [ zero ↦ elim rest [ zero ↦ 0 | suc k ↦ suc (suc k) ] | suc k ↦ suc k ]

-- The characters before the first match of `X`, or all.
unfoldable pub before : (Text → ℕ) → Text → ℕ
before p [] = 0
before p (c ∷ s) = let rest = before p s in elim (p (c ∷ s)) [ zero ↦ suc rest | suc k ↦ 0 ]

-- What stands between an opening and the closing behind it.
abbrev pub between : (Text → ℕ) → (Text → ℕ) → Text → Text
between opens closes s = let rest = drop (opens s) s in take (before closes rest) rest

abbrev pub not_char : ℕ → ℕ → Bool
not_char d c = not (c == d)

-- `[^>]*>`
abbrev pub rest_of_tag : Text → ℕ
rest_of_tag s = run_then (not_char b'>') (literal (b'>' ∷ [])) s

unfoldable pub is_digit : ℕ → Bool
is_digit c = leb 48 c && leb c 57

-- `Number(digits)`
unfoldable pub read_from : ℕ → Text → ℕ
read_from n [] = n
read_from n (c ∷ s) = read_from (10 * n + (c - 48)) s

-- `String(n)`, where the fuel bounds the number of digits.
unfoldable pub digits_from : ℕ → ℕ → Text → Text
digits_from zero n s = (48 + n) ∷ s
digits_from (suc fuel) n s =
    let further = digits_from fuel (n / 10) ((48 + n % 10) ∷ s) in
    if leb n 9 then (48 + n) ∷ s else further

abbrev pub decimal : ℕ → Text
decimal n = digits_from n n []

-- A placeholder is a number between two marks: `${MARK}${index}${MARK}`, and its pattern.
abbrev pub placeholder : ℕ → ℕ → Text
placeholder mark i = mark ∷ (decimal i ++ (mark ∷ []))

abbrev digits_then : ℕ → Text → ℕ
digits_then mark s = elim (run_of is_digit s) [
  | zero ↦ 0
  | suc _ ↦ run_then is_digit (literal (mark ∷ [])) s
]

abbrev pub is_placeholder : ℕ → Text → ℕ
is_placeholder mark s = followed_by (literal (mark ∷ [])) (digits_then mark) s

-- The number in a placeholder.
abbrev pub index_of : Text → ℕ
index_of m = read_from 0 (take (run_of is_digit (drop 1 m)) (drop 1 m))

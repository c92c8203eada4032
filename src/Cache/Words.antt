-- ===== src/Cache/Words.antt =====
-- What the normalisation of src/common/cache/cache.keys.ts makes of a question: its words, with
-- single blanks between them.
use docent.Base.{
  ℕ, ◌≡◌, refl, sym, ap, ◌∙◌, ◌≢◌, inl, inr, Bool, true, false, List, [], ◌∷◌, ◌++◌, append_assoc,
  arith, if◌then◌else◌, Bool-cases, keep, all_of, Text, is_space, trim_start, trim_end, trim, join,
  add_char, join-add_char, trim_end-trim_end,
}
use docent.Cache.Keys.{collapse, normalise_question}

-- A text cut at every white space, and the pieces that are not empty.
pub pieces : Text → List Text
unfolding add_char
pieces [] = [] ∷ []
pieces (c ∷ s) = let rest = pieces s in if is_space c then [] ∷ rest else add_char c rest

abbrev is_word : Text → Bool
is_word [] = false
is_word (_ ∷ _) = true

abbrev pub words : Text → List Text
words s = keep is_word (pieces s)

abbrev blank : Text
blank = 32 ∷ []

abbrev starts_with_space : Text → Bool
starts_with_space [] = false
starts_with_space (c ∷ s) = is_space c

abbrev spaced : Bool → List Text → Text
spaced true ws = 32 ∷ join blank ws
spaced false ws = join blank ws

words-space : (c : ℕ) (s : Text) → is_space c ≡ true → words (c ∷ s) ≡ words s
unfolding pieces
words-space c s h = rw h

-- The words of a text that is not only white space.
words-ne-nil : (s : Text) → all_of is_space s ≡ false → words s ≢ []
unfolding pieces add_char
words-ne-nil [] h = absurd (cc)
words-ne-nil (c ∷ s) h = elim (Bool-cases (is_space c)) [
  | inl e ↦ rw e (words-ne-nil s (rw e at h))
  | inr e ↦ rw e (λ k. some_word (pieces s) k)
]
  where
    some_word : (ps : List Text) → keep is_word (add_char c ps) ≡ [] → ⊥
    some_word [] k = cc
    some_word (p ∷ ps) k = cc

-- A character before a text is a word of its own, or begins the first word.
words-before_space :
    (c d : ℕ) (s : Text)
    → is_space c ≡ false
    → is_space d ≡ true
    → words (c ∷ d ∷ s) ≡ (c ∷ []) ∷ words (d ∷ s)
unfolding pieces add_char
words-before_space c d s h e = rw (h, e)

words-before_other :
    (c d : ℕ) (s : Text)
    → is_space c ≡ false
    → is_space d ≡ false
    → words (c ∷ d ∷ s) ≡ add_char c (words (d ∷ s))
unfolding pieces add_char
words-before_other c d s h e = rw (h, e) (grow (pieces s))
  where
    grow :
        (ps : List Text)
        → keep is_word (add_char c (add_char d ps)) ≡ add_char c (keep is_word (add_char d ps))
    grow [] = refl
    grow (p ∷ ps) = refl

join-word :
    (word : Text) (ws : List Text) → ws ≢ [] → join blank (word ∷ ws) ≡ word ++ (32 ∷ join blank ws)
unfolding join
join-word word [] h = absurd (h refl)
join-word word (w ∷ ws) h = append_assoc word blank (join blank (w ∷ ws))

-- Nothing is trimmed off the end of a text that does not end in white space, nor of its tail.
trimmed-tail :
    (c : ℕ) (s : Text)
    → trim_end (c ∷ s) ≡ c ∷ s
    → (all_of is_space (c ∷ s) ≡ false) × (trim_end s ≡ s)
unfolding trim_end
trimmed-tail c s h = elim (Bool-cases (all_of is_space (c ∷ s))) [
  | inl e ↦ absurd (empty (rw e at h))
  | inr e ↦ (e, same (rw e at h))
]
  where
    empty : [] ≡ c ∷ s → ⊥
    empty k = cc

    same : c ∷ trim_end s ≡ c ∷ s → trim_end s ≡ s
    same k = cc

join-words :
    (c : ℕ) (s : Text)
    → is_space c ≡ false
    → trim_end s ≡ s
    → join blank (words (c ∷ s)) ≡ c ∷ spaced (starts_with_space s) (words s)
join-words c [] h trimmed = unfold pieces add_char join in rw h
join-words c (d ∷ s) h trimmed = elim (Bool-cases (is_space d)) [
  | inl e ↦
      rw (words-before_space c d s h e, e)
        (join-word (c ∷ []) (words (d ∷ s)) (words-ne-nil (d ∷ s) (trimmed-tail d s trimmed).0))
  | inr e ↦ rw (words-before_other c d s h e, e) (join-add_char c blank (words (d ∷ s)))
]

collapse-words :
    (s : Text)
    → trim_end s ≡ s
    → (collapse false s ≡ spaced (starts_with_space s) (words s))
      × (collapse true s ≡ join blank (words s))
unfolding collapse
collapse-words [] h = unfold pieces join in (refl, refl)
collapse-words (c ∷ s) h =
    let (some_other, trimmed) = trimmed-tail c s h in
    let (fresh, behind) = collapse-words s trimmed in
    elim (Bool-cases (is_space c)) [
      | inl e ↦ rw (e, words-space c s e, behind) (refl, refl)
      | inr e ↦ rw (e, fresh, join-words c s e trimmed) (refl, refl)
    ]

words-trim_start : (s : Text) → words (trim_start s) ≡ words s
unfolding trim_start
words-trim_start [] = refl
words-trim_start (c ∷ s) = elim (Bool-cases (is_space c)) [
  | inl e ↦ rw e (words-trim_start s ∙ sym (words-space c s e))
  | inr e ↦ rw e
]

words-spaces : (s : Text) → all_of is_space s ≡ true → words s ≡ []
unfolding pieces
words-spaces [] h = refl
words-spaces (c ∷ s) h = ground (arith, words-spaces s)

word_alone : (c : ℕ) → is_space c ≡ false → words (c ∷ []) ≡ (c ∷ []) ∷ []
unfolding pieces add_char
word_alone c h = rw h

-- A word is followed by the same words whether or not the text behind it is trimmed.
words-behind :
    (c : ℕ) (s : Text)
    → is_space c ≡ false
    → words (trim_end s) ≡ words s
    → words (c ∷ trim_end s) ≡ words (c ∷ s)
unfolding trim_end
words-behind c [] h same = refl
words-behind c (d ∷ s) h same = elim (Bool-cases (all_of is_space (d ∷ s))) [
  | inl a ↦ rw a (
      word_alone c h
      ∙ ap (λ (ws : List Text). (c ∷ []) ∷ ws) (sym (words-spaces (d ∷ s) a))
      ∙ sym (words-before_space c d s h (first_space d s a)))
  | inr a ↦ rw a (elim (Bool-cases (is_space d)) [
    | inl e ↦
        words-before_space c d (trim_end s) h e
        ∙ ap (λ (ws : List Text). (c ∷ []) ∷ ws) (rw a at same)
        ∙ sym (words-before_space c d s h e)
    | inr e ↦
        words-before_other c d (trim_end s) h e
        ∙ ap (add_char c) (rw a at same)
        ∙ sym (words-before_other c d s h e)
  ])
]
  where
    first_space : (d : ℕ) (s : Text) → all_of is_space (d ∷ s) ≡ true → is_space d ≡ true
    first_space d s h = ground arith

words-trim_end : (s : Text) → words (trim_end s) ≡ words s
unfolding trim_end pieces
words-trim_end [] = refl
words-trim_end (c ∷ s) = elim (Bool-cases (all_of is_space (c ∷ s))) [
  | inl a ↦ rw a (sym (words-spaces (c ∷ s) a))
  | inr a ↦ rw a (elim (Bool-cases (is_space c)) [
    | inl e ↦ words-space c (trim_end s) e ∙ words-trim_end s ∙ sym (words-space c s e)
    | inr e ↦ words-behind c s e (words-trim_end s)
  ])
]

starts-trim_start : (s : Text) → starts_with_space (trim_start s) ≡ false
unfolding trim_start
starts-trim_start [] = refl
starts-trim_start (c ∷ s) = ground (arith, starts-trim_start s)

starts-trim_end : (s : Text) → starts_with_space s ≡ false → starts_with_space (trim_end s) ≡ false
unfolding trim_end
starts-trim_end [] h = refl
starts-trim_end (c ∷ s) h = ground arith

-- A normalised question is its words, the longest runs of characters that are no white space,
-- joined by single blanks.
pub normalise_question-words :
    (question : Text) → normalise_question question ≡ join blank (words question)
unfolding normalise_question trim
normalise_question-words question =
    let trimmed = trim_end-trim_end (trim_start question) in
    let (fresh, _) = collapse-words (trim question) trimmed in
    let starts = starts-trim_end (trim_start question) (starts-trim_start question) in
    rw starts at fresh
    ∙ ap (join blank) (words-trim_end (trim_start question) ∙ words-trim_start question)

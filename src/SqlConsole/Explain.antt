-- ===== src/SqlConsole/Explain.antt =====
-- The recursion of `_classify` through EXPLAIN ANALYZE, and what the loops behind EXPLAIN take
-- (ppbase/services/sql_console.py).
use ppbase.Prelude.{
  Str, codes, ℕ, zero, suc, ◌≤◌, ◌<◌, ◌≡◌, refl, sym, ◌∙◌, ap, ◌⊎◌, ◌≢◌, Option-cases, List, [],
  ◌∷◌, ◌++◌, Bool, true, false, not, Option, none, some, arith, length, length-drop,
  length-drop_while, take_while, drop_while, take_while-append-drop_while, drop, All, inl, inr,
  Bool-cases, text_eq, text_eq_iff, subst, append-nil,
}
use ppbase.SqlConsole.Classify.{
  Class, is, is_explain_option, starts, unwrap, explained, explain_options, classify_words,
  classify,
}

length-unwrap : (words : List Str) → length (unwrap words) ≤ length words
unfolding unwrap
length-unwrap words = length-drop_while (is "(") words

length-explained : (rest : List Str) → length (explained rest) ≤ length rest
unfolding explained
length-explained rest = elim (Bool-cases (starts "(" rest)) [
  | inl e ↦ rw e (
      omega (
        arith,
        length-drop 1 (drop_while (λ (w : Str). not (is ")" w)) rest),
        length-drop_while (λ (w : Str). not (is ")" w)) rest,
      ))
  | inr e ↦ rw e (length-drop_while _ rest)
]

classify_words-ne-none :
    (f : List Str → Option Class) (words : List Str)
    → ((rest : List Str) → length rest < length words → f rest ≢ none)
    → classify_words f words ≢ none
unfolding classify_words
classify_words-ne-none f [] h = λ e. cc
classify_words-ne-none f (first ∷ rest) h =
    ground (arith, h (explained rest) (omega (arith, length-explained rest)))

classify-ne-none : (n : ℕ) (words : List Str) → length words < n → classify n words ≢ none
unfolding classify
classify-ne-none zero words h = absurd (omega arith)
classify-ne-none (suc n) words h =
    classify_words-ne-none (classify n) (unwrap words)
      (λ rest l. classify-ne-none n rest (omega (arith, length-unwrap words)))

-- Condition: Python has more frames left than the statement has words. Then the classifier does not
-- raise RecursionError: the statement gets a class, however EXPLAIN ANALYZE is nested in it.
pub classify-total :
    (frames : ℕ) (words : List Str)
    → length words < frames
    → (c : Class) × (classify frames words ≡ some c)
classify-total frames words h = elim (Option-cases (classify frames words)) [
  | inl e ↦ absurd (classify-ne-none frames words h e)
  | inr found ↦ found
]

-- What stands behind the opening parentheses of a statement.
abbrev pub Heads : (Str → Type 0) → List Str → Type 0
Heads P [] = Unit
Heads P (w ∷ _) = P w

abbrev pub Differs : Str → Str → Type 0
Differs w v = w ≢ v

abbrev pub Equals : Str → Str → Type 0
Equals w v = w ≡ v

abbrev pub Unwrapped : List Str → List Str → Type 0
Unwrapped words inner =
    (parens : List Str) × (parens ++ inner ≡ words)
    × (All (Equals (codes "(")) parens × Heads (Differs (codes "(")) inner)

abbrev pub IsOption : Str → Type 0
IsOption w = (w ≡ codes "ANALYZE") ⊎ ((w ≡ codes "ANALYSE") ⊎ (w ≡ codes "VERBOSE"))

abbrev pub IsNoOption : Str → Type 0
IsNoOption w = (w ≢ codes "ANALYZE") × ((w ≢ codes "ANALYSE") × (w ≢ codes "VERBOSE"))

-- The words behind EXPLAIN, its options, and the statement that it explains.
pub data Explained : List Str → List Str → List Str → Type 0 where
  bracketed :
      (rest names inner : List Str)
      → (codes "(" ∷ names) ++ (codes ")" ∷ inner) ≡ rest
      → All (Differs (codes ")")) names
      → Explained rest (codes "(" ∷ names) inner
  unclosed :
      (names : List Str)
      → All (Differs (codes ")")) names
      → Explained (codes "(" ∷ names) (codes "(" ∷ names) []
  bare :
      (rest options inner : List Str)
      → options ++ inner ≡ rest
      → Heads (Differs (codes "(")) rest
      → All IsOption options
      → Heads IsNoOption inner
      → Explained rest options inner

take_while-All :
    (p : Str → Bool) (P : Str → Type 0)
    → ((w : Str) → p w ≡ true → P w)
    → (words : List Str) → All P (take_while p words)
unfolding take_while
take_while-All p P h [] = tt
take_while-All p P h (w ∷ words) = elim (Bool-cases (p w)) [
  | inl e ↦ rw e (h w e, take_while-All p P h words)
  | inr e ↦ rw e tt
]

drop_while-Heads :
    (p : Str → Bool) (P : Str → Type 0)
    → ((w : Str) → p w ≡ false → P w)
    → (words : List Str) → Heads P (drop_while p words)
unfolding drop_while
drop_while-Heads p P h [] = tt
drop_while-Heads p P h (w ∷ words) = elim (Bool-cases (p w)) [
  | inl e ↦ rw e (drop_while-Heads p P h words)
  | inr e ↦ rw e (h w e)
]

pub ne_of_text_eq : (s t : Str) → text_eq s t ≡ false → s ≢ t
ne_of_text_eq s t h e = cc ((text_eq_iff s t).1 e)

differs_of_is : (v w : Str) → text_eq w v ≡ false → v ≢ w
differs_of_is v w h e = ne_of_text_eq w v h (sym e)

pub unwrap-Unwrapped : (words : List Str) → Unwrapped words (unwrap words)
unfolding unwrap
unwrap-Unwrapped words = (
  take_while (is "(") words,
  take_while-append-drop_while (is "(") words,
  (
    take_while-All (is "(") _ (λ w e. sym ((text_eq_iff w (codes "(")).0 e)) words,
    drop_while-Heads (is "(") _ (differs_of_is (codes "(")) words,
  ),
)

is_explain_option-IsOption : (w : Str) → is_explain_option w ≡ true → IsOption w
is_explain_option-IsOption w h = elim (Bool-cases (is "ANALYZE" w)) [
  | inl e ↦ inl ((text_eq_iff w (codes "ANALYZE")).0 e)
  | inr e ↦ elim (Bool-cases (is "ANALYSE" w)) [
    | inl f ↦ inr (inl ((text_eq_iff w (codes "ANALYSE")).0 f))
    | inr f ↦ inr (inr ((text_eq_iff w (codes "VERBOSE")).0 (rw (e, f) at h)))
  ]
]

is_explain_option-IsNoOption : (w : Str) → is_explain_option w ≡ false → IsNoOption w
is_explain_option-IsNoOption w h = (
  ne_of_text_eq w (codes "ANALYZE") (ground arith),
  (
    ne_of_text_eq w (codes "ANALYSE") (ground arith),
    ne_of_text_eq w (codes "VERBOSE") (ground arith),
  ),
)

abbrev before_close : Str → Bool
before_close w = not (is ")" w)

bracketed_of :
    (names taken after : List Str)
    → taken ++ after ≡ names
    → All (Differs (codes ")")) taken
    → Heads (Equals (codes ")")) after
    → Explained (codes "(" ∷ names) (codes "(" ∷ taken) (drop 1 after)
bracketed_of names taken [] e h k =
    let same : taken ≡ names = sym (append-nil taken) ∙ e in
    subst (λ (ws : List Str). Explained (codes "(" ∷ ws) (codes "(" ∷ taken) []) same
      (unclosed taken h)
bracketed_of names taken (w ∷ after) e h k =
    bracketed (codes "(" ∷ names) taken after
      (ap (λ (ws : List Str). codes "(" ∷ ws) (ap (λ v. taken ++ (v ∷ after)) k ∙ e)) h

starts-Heads : (rest : List Str) → starts "(" rest ≡ false → Heads (Differs (codes "(")) rest
starts-Heads [] h = tt
starts-Heads (w ∷ rest) h = differs_of_is (codes "(") w h

-- The loops behind EXPLAIN find its options and the statement that it explains.
pub explained-Explained : (rest : List Str) → Explained rest (explain_options rest) (explained rest)
unfolding explained explain_options take_while drop_while text_eq
explained-Explained [] = bare [] [] [] refl tt tt tt
explained-Explained (w ∷ rest) = elim (Bool-cases (is "(" w)) [
  | inl e ↦
      let name : codes "(" ≡ w = sym ((text_eq_iff w (codes "(")).0 e) in
      subst (λ (v : Str). Explained (v ∷ rest) (explain_options (v ∷ rest)) (explained (v ∷ rest)))
        name
        (bracketed_of rest (take_while before_close rest) (drop_while before_close rest)
          (take_while-append-drop_while before_close rest)
          (take_while-All before_close _ (λ v h. differs_of_is (codes ")") v (ground arith)) rest)
          (drop_while-Heads before_close _
            (λ v h. sym ((text_eq_iff v (codes ")")).0 (ground arith))) rest))
  | inr e ↦ rw e (
      bare (w ∷ rest) (take_while is_explain_option (w ∷ rest))
        (drop_while is_explain_option (w ∷ rest))
        (take_while-append-drop_while is_explain_option (w ∷ rest)) (differs_of_is (codes "(") w e)
        (take_while-All is_explain_option _ is_explain_option-IsOption (w ∷ rest))
        (drop_while-Heads is_explain_option _ is_explain_option-IsNoOption (w ∷ rest)))
]

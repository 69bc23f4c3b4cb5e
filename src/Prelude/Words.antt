-- ===== src/Prelude/Words.antt =====
-- Words joined by spaces, and `strings.Fields` of them.
use mathlib.Core.List.{reverse, reverse_aux, reverse_aux-reverse_aux-nil, append-nil}
use learning_center_referenc.Prelude.Lists.{All}
use learning_center_referenc.Prelude.Tests.{Bool-cases}
use learning_center_referenc.Prelude.Texts.{Text, is_space, fields, fields_from, push_word}
use Prim.Native.Nat.{ℕ}
use mathlib.Core.Path.{◌≡◌, refl, ap, sym, ◌∙◌}
use mathlib.Core.Logic.{◌≢◌, inl, inr}
use mathlib.Core.Bool.{false}
use mathlib.Core.List.{List, [], ◌∷◌, ◌++◌}
use native.Mathlib.Omega.{arith}

-- A word is not empty and holds no space.
abbrev pub IsWord : Text → Type 0
IsWord w = (w ≢ []) × All (λ c. is_space c ≡ false) w

-- strings.Join(words, " ")
unfoldable pub spaced : List Text → Text
spaced [] = []
spaced (w ∷ []) = w
spaced (w ∷ v ∷ rest) = w ++ 32 ∷ spaced (v ∷ rest)

fields_from-word :
    (w word rest : Text)
    → All (λ c. is_space c ≡ false) w
    → fields_from word (w ++ rest) ≡ fields_from (reverse_aux w word) rest
unfolding fields_from
fields_from-word [] word rest h = refl
fields_from-word (c ∷ w) word rest h = ground (arith, fields_from-word w (c ∷ word) rest h.1)

push_word-cons : (v : Text) (words : List Text) → v ≢ [] → push_word v words ≡ reverse v ∷ words
push_word-cons [] words h = absurd (h refl)
push_word-cons (c ∷ v) words h = refl

reverse_aux-twice : (w : Text) → reverse_aux (reverse_aux w []) [] ≡ w
reverse_aux-twice w = reverse_aux-reverse_aux-nil w []

-- A word that has been read is pushed as it was.
push_read : (w : Text) (words : List Text) → w ≢ [] → push_word (reverse_aux w []) words ≡ w ∷ words
push_read w words h =
    push_word-cons (reverse_aux w []) words
      (λ e. h (sym (reverse_aux-twice w) ∙ ap (λ (t : Text). reverse_aux t []) e))
    ∙ ap (λ (t : Text). t ∷ words) (reverse_aux-twice w)

fields_last : (w : Text) → IsWord w → fields_from [] w ≡ w ∷ []
fields_last w (given, solid) =
    ap (fields_from []) (sym (append-nil w))
    ∙ (fields_from-word w [] [] solid ∙ (unfold fields_from in push_read w [] given))

fields_next : (w rest : Text) → IsWord w → fields_from [] (w ++ 32 ∷ rest) ≡ w ∷ fields_from [] rest
fields_next w rest (given, solid) =
    fields_from-word w [] (32 ∷ rest) solid
    ∙ (unfold fields_from is_space in push_read w (fields_from [] rest) given)

-- Words that were joined by spaces are read back.
pub fields-spaced : (words : List Text) → All IsWord words → fields (spaced words) ≡ words
unfolding fields spaced
fields-spaced [] h = unfold fields_from in refl
fields-spaced (w ∷ []) h = fields_last w h.0
fields-spaced (w ∷ v ∷ rest) h =
    fields_next w (spaced (v ∷ rest)) h.0
    ∙ ap (λ (t : List Text). w ∷ t) (fields-spaced (v ∷ rest) h.1)

abbrev pub IsSolid : Text → Type 0
IsSolid = All (λ c. is_space c ≡ false)

pub reverse_aux-IsSolid : (s t : Text) → IsSolid s → IsSolid t → IsSolid (reverse_aux s t)
reverse_aux-IsSolid [] t h k = k
reverse_aux-IsSolid (c ∷ s) t h k = reverse_aux-IsSolid s (c ∷ t) h.1 (h.0, k)

reverse-IsWord : (c : ℕ) (w : Text) → IsSolid (c ∷ w) → IsWord (reverse (c ∷ w))
reverse-IsWord c w h = (
  λ e. ground (arith, sym (reverse_aux-twice (c ∷ w)) ∙ ap (λ (t : Text). reverse_aux t []) e),
  reverse_aux-IsSolid (c ∷ w) [] h tt,
)

push_word-IsWord :
    (word : Text) (words : List Text)
    → IsSolid word
    → All IsWord words
    → All IsWord (push_word word words)
push_word-IsWord [] words h k = k
push_word-IsWord (c ∷ w) words h k = (reverse-IsWord c w h, k)

fields_from-IsWord : (word s : Text) → IsSolid word → All IsWord (fields_from word s)
unfolding fields_from
fields_from-IsWord word [] h = push_word-IsWord word [] h tt
fields_from-IsWord word (c ∷ s) h = elim (Bool-cases (is_space c)) [
  | inl space ↦ rw space (push_word-IsWord word (fields_from [] s) h (fields_from-IsWord [] s tt))
  | inr letter ↦ rw letter (fields_from-IsWord (c ∷ word) s (letter, h))
]

-- Fields are words.
pub fields-IsWord : (s : Text) → All IsWord (fields s)
unfolding fields
fields-IsWord s = fields_from-IsWord [] s tt

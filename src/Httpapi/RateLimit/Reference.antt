-- ===== src/Httpapi/RateLimit/Reference.antt =====
-- What the limiter promises, without its map and its sweep: for each client the window that it
-- opened last, and how often it called within that window.
use learning_center_referenc.Prelude.{
  ℕ, ◌+◌, ◌≤◌, ◌<◌, ◌≡◌, refl, Bool, true, false, Option, none, some, List, [], ◌∷◌, arith, leb,
  if◌then◌else◌, Text, text_eq, text_eq_iff, Option-cases, Bool-cases, ◌∙◌, inl, inr,
}
use learning_center_referenc.Clock.{Instant}
use learning_center_referenc.Httpapi.RateLimit.{
  RateWindow, Visitors, Limiter, visit, is_over, swept, admit, allow, new_limiter,
}
use learning_center_referenc.Httpapi.RateLimit.Budget.{
  visit-put, IsMap, visit-sweep, IsLimiter, swept-Keeps, allow-Keeps,
}

-- The last window of every client that has one.
abbrev pub Windows : Type 0
Windows = Text → Option RateWindow

-- The window, unless it is over.
abbrev pub running : Instant → ℕ → Option RateWindow → Option RateWindow
running now window none = none
running now window (some e) = if is_over now window e then none else some e

abbrev set : Text → RateWindow → Windows → Windows
set client e m d = if text_eq client d then some e else m d

-- A call in a running window is counted, and refused at the limit; any other call opens a window.
unfoldable pub reference_allow : (limit window : ℕ) → Windows → Instant → Text → Windows × Bool
reference_allow limit window m now client = elim (running now window (m client)) [
  | none ↦ (set client (record { started = now; hits = 1 }) m, true)
  | some e ↦
      if leb limit e.hits then (m, false) else (set client (record e { hits = e.hits + 1 }) m, true)
]

-- The map and the reference have the same running windows at `t`.
abbrev pub Agrees : (t : Instant) (window : ℕ) → Visitors → Windows → Type 0
Agrees t window v m = (d : Text) → running t window (visit d v) ≡ running t window (m d)

module _ (limit window : ℕ) where
  Agrees-later :
      (t now : Instant) (v : Visitors) (m : Windows)
      → t ≤ now
      → Agrees t window v m
      → Agrees now window v m
  Agrees-later t now v m h same d = ground (arith, same d)

  swept-Agrees :
      (now : Instant) (l : Limiter) (m : Windows)
      → l.window ≡ window
      → IsMap l.visitors
      → Agrees now window l.visitors m
      → Agrees now window (swept l now).visitors m
  unfolding swept
  swept-Agrees now l m e u same d = ground (arith, same d, visit-sweep now l.window d l.visitors u)

  admit-answers :
      (now : Instant) (l : Limiter) (m : Windows) (c : Text)
      → l.limit ≡ limit
      → l.window ≡ window
      → Agrees now window l.visitors m
      → (admit l now c).1 ≡ (reference_allow limit window m now c).1
  unfolding admit reference_allow
  admit-answers now l m c e f same = ground (arith, same c)

  admit-Agrees :
      (now : Instant) (l : Limiter) (m : Windows) (c : Text)
      → l.limit ≡ limit
      → l.window ≡ window
      → Agrees now window l.visitors m
      → Agrees now window (admit l now c).0.visitors (reference_allow limit window m now c).0
  unfolding admit reference_allow
  admit-Agrees now l m c e f same d =
      let opened = visit-put c d (record { started = now; hits = 1 }) l.visitors in
      elim (Option-cases (visit c l.visitors)) [
        | inl new ↦ ground (arith, same c, same d, text_eq_iff c d, opened)
        | inr (w, old) ↦
            let counted = visit-put c d (record w { hits = w.hits + 1 }) l.visitors in
            elim (Bool-cases (is_over now l.window w)) [
              | inl over ↦ ground (arith, same c, same d, text_eq_iff c d, opened)
              | inr still ↦ ground (arith, same c, same d, text_eq_iff c d, counted)
            ]
      ]

  -- A limiter with these settings whose map agrees with the reference.
  record Refines (t : Instant) (l : Limiter) (m : Windows) : Type 0 where
    valid : IsLimiter l
    limits : l.limit ≡ limit
    windows : l.window ≡ window
    agrees : Agrees t window l.visitors m

  -- Neither the decision nor the running windows tell the two apart.
  allow-Refines :
      (t now : Instant) (l : Limiter) (m : Windows) (c : Text)
      → t ≤ now
      → Refines t l m
      → ((allow l now c).1 ≡ (reference_allow limit window m now c).1)
        × Refines now (allow l now c).0 (reference_allow limit window m now c).0
  allow-Refines t now l m c later r =
      let (_, limits, windows) = swept-Keeps l now r.valid in
      let (valid', limits', windows') = allow-Keeps l now c r.valid in
      let same = Agrees-later t now l.visitors m later r.agrees in
      let same' = swept-Agrees now l m r.windows r.valid.is_map same in
      (
        unfold allow in
            admit-answers now (swept l now) m c (limits ∙ r.limits) (windows ∙ r.windows) same',
        record {
          valid = valid';
          limits = limits' ∙ r.limits;
          windows = windows' ∙ r.windows;
          agrees =
              unfold allow in
              admit-Agrees now (swept l now) m c (limits ∙ r.limits) (windows ∙ r.windows) same';
        },
      )

  unfoldable pub reference_answers : Windows → List (Instant × Text) → List Bool
  reference_answers m [] = []
  reference_answers m ((now, c) ∷ calls) =
      (reference_allow limit window m now c).1
      ∷ reference_answers (reference_allow limit window m now c).0 calls

unfoldable pub answers : Limiter → List (Instant × Text) → List Bool
answers l [] = []
answers l ((now, c) ∷ calls) = (allow l now c).1 ∷ answers (allow l now c).0 calls

-- The clock does not run backwards from one call to the next.
abbrev pub Ascending : Instant → List (Instant × Text) → Type 0
Ascending t [] = Unit
Ascending t ((now, c) ∷ calls) = (t ≤ now) × Ascending now calls

answers-Refines :
    (limit window : ℕ) (t : Instant) (l : Limiter) (m : Windows) (calls : List (Instant × Text))
    → Refines limit window t l m
    → Ascending t calls
    → answers l calls ≡ reference_answers limit window m calls
unfolding answers reference_answers
answers-Refines limit window t l m [] r up = refl
answers-Refines limit window t l m ((now, c) ∷ calls) r (later, up) =
    let (same, r') = allow-Refines limit window t now l m c later r in
    let rest = answers-Refines limit window now (allow l now c).0 _ calls r' up in cc (same, rest)

-- With a positive limit, a new limiter answers every sequence of calls, by whatever clients, as the
-- reference does that never forgets a window, while the clock does not run backwards: which windows
-- the sweep deletes, and when, is never seen.
pub new_limiter_refines :
    (limit window : ℕ) (trust_proxy : Bool) (calls : List (Instant × Text))
    → 0 < limit
    → Ascending 0 calls
    → answers (new_limiter limit window trust_proxy) calls
      ≡ reference_answers limit window (λ d. none) calls
unfolding new_limiter visit
new_limiter_refines limit window trust_proxy calls positive up =
    answers-Refines limit window 0 (new_limiter limit window trust_proxy) (λ d. none) calls fresh up
  where
    fresh : Refines limit window 0 (new_limiter limit window trust_proxy) (λ d. none)
    fresh = record {
      valid = record { is_map = tt; positive = positive };
      limits = refl;
      windows = refl;
      agrees = λ d. refl;
    }

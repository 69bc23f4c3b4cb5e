-- ===== src/Httpapi/RateLimit/Budget.antt =====
-- How many requests of one client the limiter lets through.
use learning_center_referenc.Prelude.{
  ℕ, ◌+◌, ◌-◌, ◌*◌, ◌≤◌, ◌<◌, ◌≡◌, refl, ◌↔◌, Bool, false, none, some, List, [], ◌∷◌, arith, leb,
  if◌then◌else◌, Text, text_eq, text_eq_iff, All, Option-cases, inl, inr, ◌∙◌,
}
use learning_center_referenc.Clock.{Instant}
use learning_center_referenc.Httpapi.RateLimit.{
  RateWindow, Visitors, Limiter, visit, put, is_over, sweep, swept, admit, allow,
}

pub visit-put :
    (k j : Text) (v : RateWindow) (m : Visitors)
    → visit j (put k v m) ≡ (if text_eq k j then some v else visit j m)
unfolding visit put
visit-put k j v [] = refl
visit-put k j v ((i, w) ∷ m) =
    ground (arith, text_eq_iff k j, text_eq_iff i k, text_eq_iff i j, visit-put k j v m)

-- The keys of a map are distinct.
abbrev pub IsMap : Visitors → Type 0
IsMap [] = Unit
IsMap ((j, v) ∷ m) = (visit j m ≡ none) × IsMap m

sweep-visit-none :
    (now window : ℕ) (k : Text) (m : Visitors)
    → visit k m ≡ none
    → visit k (sweep now window m) ≡ none
unfolding visit sweep
sweep-visit-none now window k [] h = refl
sweep-visit-none now window k ((j, v) ∷ m) h = ground (arith, sweep-visit-none now window k m)

-- The sweep drops exactly the entries whose window is over.
pub visit-sweep :
    (now window : ℕ) (k : Text) (m : Visitors)
    → IsMap m
    → visit k (sweep now window m)
      ≡ elim (visit k m) [ none ↦ none | some v ↦ if is_over now window v then none else some v ]
unfolding visit sweep
visit-sweep now window k [] u = refl
visit-sweep now window k ((j, v) ∷ m) u =
    ground (arith, text_eq_iff j k, visit-sweep now window k m u.1, sweep-visit-none now window k m)

put-visit-none :
    (k j : Text) (v : RateWindow) (m : Visitors)
    → visit j m ≡ none
    → text_eq k j ≡ false
    → visit j (put k v m) ≡ none
put-visit-none k j v m h n = ground (arith, visit-put k j v m)

put-IsMap : (k : Text) (v : RateWindow) (m : Visitors) → IsMap m → IsMap (put k v m)
unfolding visit put
put-IsMap k v [] u = ground arith
put-IsMap k v ((j, w) ∷ m) u =
    ground
      (arith, text_eq_iff j k, text_eq_iff k j, put-IsMap k v m u.1, put-visit-none k j v m u.0)

sweep-IsMap : (now window : ℕ) (m : Visitors) → IsMap m → IsMap (sweep now window m)
unfolding sweep
sweep-IsMap now window [] u = tt
sweep-IsMap now window ((j, v) ∷ m) u =
    ground (arith, sweep-IsMap now window m u.1, sweep-visit-none now window j m u.0)

-- A limiter as the router builds it, after any calls.
pub record IsLimiter (l : Limiter) : Type 0 where
  pub is_map : IsMap l.visitors
  pub positive : 0 < l.limit

abbrev pub Keeps : Limiter → Limiter → Type 0
Keeps l l' = IsLimiter l' × (l'.limit ≡ l.limit) × (l'.window ≡ l.window)

pub swept-Keeps : (l : Limiter) (now : Instant) → IsLimiter l → Keeps l (swept l now)
unfolding swept
swept-Keeps l now v = ground (arith, v, sweep-IsMap now l.window l.visitors v.is_map)

admit-Keeps : (l : Limiter) (now : Instant) (d : Text) → IsLimiter l → Keeps l (admit l now d).0
unfolding admit
admit-Keeps l now d v =
    let opened = put-IsMap d (record { started = now; hits = 1 }) l.visitors v.is_map in
    elim (Option-cases (visit d l.visitors)) [
      | inl new ↦ ground (arith, v, opened)
      | inr (e, old) ↦
          ground
            (arith, v, opened, put-IsMap d (record e { hits = e.hits + 1 }) l.visitors v.is_map)
    ]

-- A call keeps the limiter's map, its limit and its window.
pub allow-Keeps : (l : Limiter) (now : Instant) (d : Text) → IsLimiter l → Keeps l (allow l now d).0
unfolding allow
allow-Keeps l now d v =
    let (v', limit, window) = swept-Keeps l now v in
    let (v'', limit', window') = admit-Keeps (swept l now) now d v' in
    (v'', limit' ∙ limit, window' ∙ window)

-- What the client `c` may still get from `t` on, before a full window has passed.
module _ (c : Text) (t : Instant) where
  unfoldable pub budget : Limiter → ℕ
  budget l = elim (visit c l.visitors) [
    | none ↦ l.limit
    | some e ↦ if leb t e.started then l.limit - e.hits else l.limit + (l.limit - e.hits)
  ]

  -- Whether a call of `d` that was answered so let the client `c` through.
  abbrev pub passed : Text → Bool → ℕ
  passed d answer = if text_eq d c then (if answer then 1 else 0) else 0

  budget-swept :
      (l : Limiter) (now : Instant)
      → IsLimiter l
      → now < t + l.window
      → budget (swept l now) ≤ budget l
  unfolding budget swept
  budget-swept l now v late = ground (arith, visit-sweep now l.window c l.visitors v.is_map)

  budget-admit :
      (l : Limiter) (now : Instant) (d : Text)
      → IsLimiter l
      → t ≤ now
      → now < t + l.window
      → budget (admit l now d).0 + passed d (admit l now d).1 ≤ budget l
  unfolding budget admit
  budget-admit l now d v early late = elim (Option-cases (visit d l.visitors)) [
    | inl new ↦ ground (
      arith,
      text_eq_iff d c,
      visit-put d c (record { started = now; hits = 1 }) l.visitors,
      v.positive,
    )
    | inr (e, old) ↦ ground (
      arith,
      text_eq_iff d c,
      visit-put d c (record { started = now; hits = 1 }) l.visitors,
      visit-put d c (record e { hits = e.hits + 1 }) l.visitors,
      v.positive,
    )
  ]

  budget-allow :
      (l : Limiter) (now : Instant) (d : Text)
      → IsLimiter l
      → t ≤ now
      → now < t + l.window
      → budget (allow l now d).0 + passed d (allow l now d).1 ≤ budget l
  unfolding allow
  budget-allow l now d v early late =
      let (v', limit, window) = swept-Keeps l now v in
      omega (
        arith,
        budget-swept l now v late,
        budget-admit (swept l now) now d v' early (ground (arith, window)),
      )

  -- A sequence of calls, and how many of them let the client `c` through.
  unfoldable pub run : Limiter → List (Instant × Text) → Limiter × ℕ
  run l [] = (l, 0)
  run l ((now, d) ∷ calls) =
      let (l', answer) = allow l now d in let (l'', n) = run l' calls in (l'', passed d answer + n)

  passed-le-budget :
      (l : Limiter) (calls : List (Instant × Text))
      → IsLimiter l
      → All (λ call. (t ≤ call.0) × (call.0 < t + l.window)) calls
      → (run l calls).1 ≤ budget l
  unfolding run
  passed-le-budget l [] v h = omega arith
  passed-le-budget l ((now, d) ∷ calls) v h =
      let (v', limit, window) = allow-Keeps l now d v in
      let rest = passed-le-budget (allow l now d).0 calls v' (rw window h.1) in
      omega (arith, rest, budget-allow l now d v h.0.0 h.0.1)

  budget-le : (l : Limiter) → budget l ≤ 2 * l.limit
  unfolding budget
  budget-le l = ground arith

  budget_of_new : (l : Limiter) → visit c l.visitors ≡ none → budget l ≡ l.limit
  unfolding budget
  budget_of_new l h = ground arith

-- Take a limiter with a positive limit and distinct clients. In any sequence of calls that all fall
-- within one window's length, in whatever order the clients come, a client is let through at most
-- twice the limit; a client that the limiter does not know yet, at most the limit.
pub limit_holds :
    (c : Text) (t : Instant) (l : Limiter) (calls : List (Instant × Text))
    → IsLimiter l
    → All (λ call. (t ≤ call.0) × (call.0 < t + l.window)) calls
    → ((run c t l calls).1 ≤ 2 * l.limit)
      × (visit c l.visitors ≡ none → (run c t l calls).1 ≤ l.limit)
limit_holds c t l calls v h =
    let within = passed-le-budget c t l calls v h in
    (omega (arith, within, budget-le c t l), λ new. omega (arith, within, budget_of_new c t l new))

-- With a positive limit and distinct clients, a call is refused exactly if the client has used up
-- its limit in a window that is not over yet.
pub allow-refuses_iff :
    (l : Limiter) (now : Instant) (c : Text)
    → IsLimiter l
    → ((allow l now c).1 ≡ false) ↔ (
        (e : RateWindow) × (visit c l.visitors ≡ some e)
        × (now < e.started + l.window)
        × (l.limit ≤ e.hits))
unfolding allow swept admit
allow-refuses_iff l now c v = (
  λ h. elim (Option-cases (visit c l.visitors)) [
    | inl new ↦ absurd (ground (arith, visit-sweep now l.window c l.visitors v.is_map))
    | inr (e, old) ↦ (
      e,
      old,
      ground (arith, visit-sweep now l.window c l.visitors v.is_map),
      ground (arith, visit-sweep now l.window c l.visitors v.is_map),
    )
  ],
  λ t. ground (arith, t.1, t.2, t.3, visit-sweep now l.window c l.visitors v.is_map),
)

-- ===== src/Httpapi/RateLimit.antt =====
-- api/internal/httpapi/rate_limit.go: the fixed-window limit per client. A call holds the mutex
-- throughout, so concurrent requests are calls in some order.
pub mod Budget
pub mod Reference
use learning_center_referenc.Prelude.{
  ℕ, ◌+◌, ◌≤◌, ◌≡◌, refl, Bool, true, false, not, ◌||◌, ◌&&◌, Option, none, some, List, [], ◌∷◌,
  arith, leb, ◌==◌, if◌then◌else◌, Text, text_eq, text_eq_iff,
}
use learning_center_referenc.Clock.{Instant}

pub record RateWindow : Type 0 where
  pub started : Instant
  pub hits : ℕ

abbrev pub Visitors : Type 0
Visitors = List (Text × RateWindow)

pub record Limiter : Type 0 where
  pub visitors : Visitors
  pub limit : ℕ
  pub window : ℕ
  pub trust_proxy : Bool
  pub last_sweep : Instant

-- newClientRateLimiter; the zero time stands for "never swept".
unfoldable pub new_limiter : ℕ → ℕ → Bool → Limiter
new_limiter limit window trust_proxy = record {
  visitors = [];
  limit = limit;
  window = window;
  trust_proxy = trust_proxy;
  last_sweep = 0;
}

unfoldable pub visit : Text → Visitors → Option RateWindow
visit k [] = none
visit k ((j, v) ∷ m) = if text_eq j k then some v else visit k m

unfoldable pub put : Text → RateWindow → Visitors → Visitors
put k v [] = (k, v) ∷ []
put k v ((j, w) ∷ m) = if text_eq j k then (k, v) ∷ m else (j, w) ∷ put k v m

-- now.Sub(started) >= window, for a window that is not negative.
abbrev pub is_over : Instant → ℕ → RateWindow → Bool
is_over now window v = leb (v.started + window) now

-- The loop that deletes the windows that are over.
unfoldable pub sweep : Instant → ℕ → Visitors → Visitors
sweep now window [] = []
sweep now window ((j, v) ∷ m) =
    let rest = sweep now window m in if is_over now window v then rest else (j, v) ∷ rest

unfoldable pub swept : Limiter → Instant → Limiter
swept l now =
    if l.last_sweep == 0 || leb (l.last_sweep + l.window) now
    then record l { visitors = sweep now l.window l.visitors; last_sweep = now }
    else l

abbrev open_window : Limiter → Instant → Text → Limiter × Bool
open_window l now client =
    (record l { visitors = put client (record { started = now; hits = 1 }) l.visitors }, true)

-- The decision on the client's entry, after the sweep.
unfoldable pub admit : Limiter → Instant → Text → Limiter × Bool
admit l now client = elim (visit client l.visitors) [
  | none ↦ open_window l now client
  | some entry ↦
      if is_over now l.window entry
      then open_window l now client
      else if leb l.limit entry.hits
      then (l, false)
      else (
        record l { visitors = put client (record entry { hits = entry.hits + 1 }) l.visitors },
        true,
      )
]

unfoldable pub allow : Limiter → Instant → Text → Limiter × Bool
allow l now client = admit (swept l now) now client

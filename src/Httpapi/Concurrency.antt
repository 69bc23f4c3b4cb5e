-- ===== src/Httpapi/Concurrency.antt =====
-- api/internal/httpapi/concurrency.go: the slots that bound the requests in flight. The buffered
-- channel is the number of its elements: a send that would block refuses, a receive frees a slot.
use learning_center_referenc.Prelude.{
  ℕ, ◌+◌, ◌-◌, ◌≤◌, ◌≡◌, refl, Bool, true, false, Option, none, some, List, [], ◌∷◌, arith, ltb,
  ◌==◌, length, mem, if◌then◌else◌,
}

-- defaultMaxConcurrentRequests
abbrev pub default_max_concurrent_requests : ℕ
default_max_concurrent_requests = 64

-- The limit of NewRouter: a limit of 0 selects the default.
unfoldable pub concurrent_limit : ℕ → ℕ
concurrent_limit ℕ.zero = default_max_concurrent_requests
concurrent_limit (ℕ.suc n) = ℕ.suc n

-- The select of concurrencyLimit: the slots taken afterwards, if the request is admitted.
unfoldable pub acquire : ℕ → ℕ → Option ℕ
acquire limit slots = if ltb slots limit then some (slots + 1) else none

-- The deferred receive.
unfoldable pub release : ℕ → ℕ
release slots = slots - 1

-- The slots that are taken, and the requests that are being handled: each of these took a slot, and
-- still has its deferred receive to do, however its handler ends.
pub record Slots : Type 0 where
  pub taken : ℕ
  pub handled : List ℕ

-- make(chan struct{}, limit)
abbrev pub new_slots : Slots
new_slots = record { taken = 0; handled = [] }

-- What happens to one of the requests, each named by a number: it arrives, or its handler ends.
pub data Event : Type 0 where
  arrive ends : ℕ → Event

-- A list without its first `id`.
unfoldable pub without : ℕ → List ℕ → List ℕ
without id [] = []
without id (k ∷ ids) = let rest = without id ids in if k == id then ids else k ∷ rest

-- concurrencyLimit's handler: whether an arrival is admitted; only a request that was can end.
unfoldable pub slot_step : ℕ → Slots → Event → Slots × Option Bool
slot_step limit s (arrive id) = elim (acquire limit s.taken) [
  | none ↦ (s, some false)
  | some n ↦ (record { taken = n; handled = id ∷ s.handled }, some true)
]
slot_step limit s (ends id) =
    if mem id s.handled
    then (record { taken = release s.taken; handled = without id s.handled }, none)
    else (s, none)

unfoldable pub slots_run : ℕ → Slots → List Event → Slots × List (Option Bool)
slots_run limit s [] = (s, [])
slots_run limit s (e ∷ events) =
    let (s', admitted) = slot_step limit s e in
    let (last, more) = slots_run limit s' events in (last, admitted ∷ more)

-- Without slots: an arrival is admitted if fewer than `limit` requests are being handled.
unfoldable pub handled_step : ℕ → List ℕ → Event → List ℕ × Option Bool
handled_step limit ids (arrive id) =
    if ltb (length ids) limit then (id ∷ ids, some true) else (ids, some false)
handled_step limit ids (ends id) = (without id ids, none)

unfoldable pub handled_run : ℕ → List ℕ → List Event → List ℕ × List (Option Bool)
handled_run limit ids [] = (ids, [])
handled_run limit ids (e ∷ events) =
    let (ids', admitted) = handled_step limit ids e in
    let (last, more) = handled_run limit ids' events in (last, admitted ∷ more)

length-without :
    (id : ℕ) (ids : List ℕ) → mem id ids ≡ true → length (without id ids) ≡ length ids - 1
unfolding without mem
length-without id [] h = absurd (ground arith)
length-without id (k ∷ []) h = ground arith
length-without id (k ∷ j ∷ ids) h = ground (arith, length-without id (j ∷ ids))

without_absent : (id : ℕ) (ids : List ℕ) → mem id ids ≡ false → without id ids ≡ ids
unfolding without mem
without_absent id [] h = refl
without_absent id (k ∷ ids) h = ground (arith, without_absent id ids)

abbrev IsCounted : ℕ → Slots → Type 0
IsCounted limit s = (s.taken ≡ length s.handled) × (length s.handled ≤ limit)

slot_step-IsCounted :
    (limit : ℕ) (s : Slots) (e : Event)
    → IsCounted limit s
    → IsCounted limit (slot_step limit s e).0
      × ((slot_step limit s e).0.handled ≡ (handled_step limit s.handled e).0)
      × ((slot_step limit s e).1 ≡ (handled_step limit s.handled e).1)
unfolding slot_step handled_step acquire release
slot_step-IsCounted limit s (arrive id) h = ground arith
slot_step-IsCounted limit s (ends id) h =
    ground (arith, length-without id s.handled, without_absent id s.handled)

slots_run-IsCounted :
    (limit : ℕ) (s : Slots) (events : List Event)
    → IsCounted limit s
    → IsCounted limit (slots_run limit s events).0
      × ((slots_run limit s events).0.handled ≡ (handled_run limit s.handled events).0)
      × ((slots_run limit s events).1 ≡ (handled_run limit s.handled events).1)
unfolding slots_run handled_run
slots_run-IsCounted limit s [] h = (h, refl, refl)
slots_run-IsCounted limit s (e ∷ events) h =
    let (keeps, same, answer) = slot_step-IsCounted limit s e h in
    let (last, ids, answers) = slots_run-IsCounted limit (slot_step limit s e).0 events keeps in
    (last, cc (ids, same), cc (answers, answer, same))

-- Whatever requests arrive and end, an arriving request is admitted exactly if fewer than `limit`
-- of the admitted ones have still to end, and after any events the taken slots are as many as the
-- requests that are being handled, which are at most `limit`. So no slot is lost, and none is freed
-- before its request ends.
pub slots_run_refines :
    (limit : ℕ) (events : List Event)
    → let (s, answers) = slots_run limit new_slots events in
      let (ids, expected) = handled_run limit [] events in
      (answers ≡ expected) × (s.handled ≡ ids) × (s.taken ≡ length ids) × (length ids ≤ limit)
slots_run_refines limit events =
    let (counts, ids, answers) = slots_run-IsCounted limit new_slots events (refl, ground arith) in
    (answers, ids, ground (arith, counts, ids), ground (arith, counts, ids))

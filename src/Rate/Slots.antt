-- ===== src/Rate/Slots.antt =====
-- workers/rate-limiter.ts, lines 8-32 and 173-238: the ceiling on simultaneous requests.
use new_specter.Common.{
  ℕ, ◌+◌, ◌-◌, ◌≤◌, max, String, ◌≡◌, Bool, Option, some, List, [], ◌∷◌, arith, ltb, leb, ◌==◌,
  if◌then◌else◌, or_else, matches_ci,
}

abbrev pub amazon_concurrency : ℕ
amazon_concurrency = 2

abbrev pub shopify_concurrency : ℕ
shopify_concurrency = 8

abbrev pub default_concurrency_limit : ℕ
default_concurrency_limit = 5

unfoldable pub default_concurrency : String → ℕ
unfolding matches_ci
default_concurrency domain =
    if matches_ci domain "amazon."
    then amazon_concurrency
    else if matches_ci domain "myshopify.com"
    then shopify_concurrency
    else default_concurrency_limit

unfoldable pub decide_acquire : ℕ → ℕ → Bool
decide_acquire current max = ltb current max

-- `ACQUIRE_SLOT_LUA`, from the counter (`none` where the key is absent): the reply and the counter.
unfoldable pub acquire_slot_lua : Option ℕ → ℕ → ℕ × Option ℕ
acquire_slot_lua counter max =
    let cur = or_else counter 0 in if leb max cur then (0, counter) else (1, some (cur + 1))

-- `RELEASE_SLOT_LUA`.
unfoldable pub release_slot_lua : Option ℕ → ℕ × Option ℕ
release_slot_lua counter =
    let cur = or_else counter 0 in if ltb 0 cur then (1, some (cur - 1)) else (1, counter)

unfoldable pub acquire_slot : Option ℕ → ℕ → Bool × Option ℕ
unfolding acquire_slot_lua
acquire_slot counter max =
    let (res, counter') = acquire_slot_lua counter max in (res == 1, counter')

unfoldable pub release_slot : Option ℕ → Option ℕ
unfolding release_slot_lua
release_slot counter = (release_slot_lua counter).1

-- The script refuses exactly when `decideAcquire` does.
pub acquire_slot-eq-decide :
    (counter : Option ℕ) (max : ℕ)
    → (acquire_slot counter max).0 ≡ decide_acquire (or_else counter 0) max
unfolding acquire_slot decide_acquire
acquire_slot-eq-decide counter max = ground arith

-- What the workers do to one domain's counter, interleaved.
pub data SlotEvent : Type 0 where
  acquires releases : SlotEvent

-- The counter after the events, with the number of slots granted and of releases made.
pub record SlotRun : Type 0 where
  pub counter : Option ℕ
  pub granted : ℕ
  pub released : ℕ

unfoldable pub slot_step : ℕ → SlotRun → SlotEvent → SlotRun
unfolding acquire_slot release_slot
slot_step max r acquires =
    let (won, counter) = acquire_slot r.counter max in
    record r { counter = counter; granted = if won then r.granted + 1 else r.granted }
slot_step max r releases = record r { counter = release_slot r.counter; released = r.released + 1 }

unfoldable pub slot_run : ℕ → SlotRun → List SlotEvent → SlotRun
slot_run max r [] = r
slot_run max r (e ∷ es) = slot_run max (slot_step max r e) es

abbrev pub in_flight : SlotRun → ℕ
in_flight r = or_else r.counter 0

slot_step-le :
    (max : ℕ) (r : SlotRun) (e : SlotEvent)
    → in_flight r ≤ max
    → in_flight (slot_step max r e) ≤ max
unfolding slot_step
slot_step-le max r acquires h = ground arith
slot_step-le max r releases h = ground arith

-- However acquires and releases interleave, at most `max` slots are taken.
pub slot_run-le :
    (max : ℕ) (r : SlotRun) (es : List SlotEvent)
    → in_flight r ≤ max
    → in_flight (slot_run max r es) ≤ max
unfolding slot_run
slot_run-le max r [] h = h
slot_run-le max r (e ∷ es) h = slot_run-le max (slot_step max r e) es (slot_step-le max r e h)

-- The releases never outnumber the slots that were granted.
abbrev pub Balanced : ℕ → SlotRun → List SlotEvent → Type 0
Balanced max r [] = r.released ≤ r.granted
Balanced max r (e ∷ es) = (r.released ≤ r.granted) × Balanced max (slot_step max r e) es

Balanced-now :
    (max : ℕ) (r : SlotRun) (es : List SlotEvent) → Balanced max r es → r.released ≤ r.granted
Balanced-now max r [] b = b
Balanced-now max r (e ∷ es) b = b.0

slot_step-balance :
    (max : ℕ) (r : SlotRun) (e : SlotEvent)
    → in_flight r + r.released ≡ r.granted
    → (slot_step max r e).released ≤ (slot_step max r e).granted
    → let s = slot_step max r e in in_flight s + s.released ≡ s.granted
unfolding slot_step
slot_step-balance max r acquires e h = ground arith
slot_step-balance max r releases e h = ground arith

-- While nobody releases a slot that was not granted, the counter is exactly the number of slots
-- granted and not yet released.
pub slot_run-balance :
    (max : ℕ) (r : SlotRun) (es : List SlotEvent)
    → in_flight r + r.released ≡ r.granted
    → Balanced max r es
    → let s = slot_run max r es in in_flight s + s.released ≡ s.granted
unfolding slot_run
slot_run-balance max r [] e b = e
slot_run-balance max r (c ∷ es) e (h, b) =
    let r' = slot_step max r c in
    slot_run-balance max r' es (slot_step-balance max r c e (Balanced-now max r' es b)) b

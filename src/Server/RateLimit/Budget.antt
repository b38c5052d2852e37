-- ===== src/Server/RateLimit/Budget.antt =====
-- How many requests of one identifier the limiter of rateLimit.ts lets through in a window.
use nap.Base.{
  ℕ, suc, ◌+◌, ◌-◌, ◌≤◌, ◌<◌, ◌≡◌, ◌∙◌, max, true, false, ◌&&◌, none, some, List, [], ◌∷◌, arith,
  if◌then◌else◌, All, All-mono, Bool-cases, inl, inr,
}
use nap.Text.{Text, ◌==◌, includes}
use nap.JsMap.{get, get-retain_kept, get-retain-none}
use nap.Server.RateLimit.{
  RateLimitKey, RateLimitDecision, Window, InMemoryRateLimiter, allow, is_over, prune, identifiers,
  hit_all, check,
}
use nap.Server.RateLimit.Hits.{
  SameLimits, hit-SameLimits, hit_all-SameLimits, Grown, Grown-le, hits_of, hit_absent, hit_other,
  hit_all-Grown, hit_all_refused,
}

abbrev pub at : ℕ → InMemoryRateLimiter → InMemoryRateLimiter
at now r = record r { clock = now }

-- The requests at the given times whose key has the identifier and that are allowed.
unfoldable pub admitted : Text → List (ℕ × RateLimitKey) → InMemoryRateLimiter → ℕ
admitted i [] r = 0
admitted i ((now, key) ∷ calls) r =
    let (decision, r') = check key (at now r) in
    let rest = admitted i calls r' in
    if includes i (identifiers key) && decision.allowed then suc rest else rest

prune-SameLimits : (now : ℕ) (r : InMemoryRateLimiter) → SameLimits r (prune now r)
unfolding prune
prune-SameLimits now r = record { window_seconds = ground arith; max_per_window = ground arith }

-- A window that is not over survives the sweep.
prune_kept :
    (i : Text) (now : ℕ) (w : Window) (r : InMemoryRateLimiter)
    → get i r.windows ≡ some w
    → now < w.started_at + r.window_seconds
    → get i (prune now r).windows ≡ some w
unfolding prune
prune_kept i now w r h l = ground (
  arith,
  get-retain_kept (λ w. if is_over r.window_seconds now w then false else true) i r.windows w h,
)

prune_absent :
    (i : Text) (now : ℕ) (r : InMemoryRateLimiter)
    → get i r.windows ≡ none
    → get i (prune now r).windows ≡ none
unfolding prune
prune_absent i now r h = ground (
  arith,
  get-retain-none (λ w. if is_over r.window_seconds now w then false else true) i r.windows h,
)

module _ (i : Text) (now : ℕ) (key : RateLimitKey) (r : InMemoryRateLimiter) where
  check-SameLimits : SameLimits r (check key (at now r)).1
  unfolding check
  check-SameLimits = ground (
    arith,
    prune-SameLimits now (at now r),
    hit_all-SameLimits (identifiers key) now allow (prune now (at now r)),
  )

  check-Grown :
      (w : Window)
      → get i r.windows ≡ some w
      → now < w.started_at + r.window_seconds
      → Grown i w (hits_of (includes i (identifiers key))) (check key (at now r)).1
  unfolding check
  check-Grown w h l =
      let p : get i (prune now (at now r)).windows ≡ some w = prune_kept i now w (at now r) h l in
      hit_all-Grown (identifiers key) i now allow w (prune now (at now r)) p
        (ground (arith, prune-SameLimits now (at now r)))

  check_refused :
      (w : Window)
      → get i r.windows ≡ some w
      → now < w.started_at + r.window_seconds
      → r.max_per_window ≤ w.count
      → includes i (identifiers key) ≡ true
      → (check key (at now r)).0.allowed ≡ false
  unfolding check
  check_refused w h l full m =
      let p : get i (prune now (at now r)).windows ≡ some w = prune_kept i now w (at now r) h l in
      hit_all_refused (identifiers key) i now allow w (prune now (at now r)) p
        (ground (arith, prune-SameLimits now (at now r)))
        (ground (arith, prune-SameLimits now (at now r))) m

-- Within the window that an identifier has, what is left of its budget bounds the requests.
admitted_in_window :
    (i : Text) (deadline cap : ℕ) (calls : List (ℕ × RateLimitKey)) (r : InMemoryRateLimiter)
    (w : Window)
    → get i r.windows ≡ some w
    → w.started_at + r.window_seconds ≡ deadline
    → r.max_per_window ≡ cap
    → All (λ c. c.0 < deadline) calls
    → admitted i calls r ≤ cap - w.count
unfolding admitted
admitted_in_window i deadline cap [] r w h d m l = omega arith
admitted_in_window i deadline cap ((now, key) ∷ calls) r w h d m l =
    let within : now < w.started_at + r.window_seconds = omega arith in
    let same = check-SameLimits i now key r in
    let grown = check-Grown i now key r w h within in
    let ih =
      admitted_in_window i deadline cap calls (check key (at now r)).1 grown.window grown.found
        (omega (arith, same.window_seconds, grown.started_at)) (omega (arith, same.max_per_window))
        l.1 in
    ground (arith, ih, grown.count, check_refused i now key r w h within)

-- The first request of an identifier opens its window; the others leave it closed.
hit_all-opens :
    (is : List Text) (i : Text) (now : ℕ) (worst : RateLimitDecision) (r : InMemoryRateLimiter)
    → get i r.windows ≡ none
    → 0 < r.window_seconds
    → includes i is ≡ true
    → Grown i (record { started_at = now; count = 1 }) 0 (hit_all is now worst r).1
unfolding hit_all includes
hit_all-opens [] i now worst r h pos m = cc
hit_all-opens (j ∷ is) i now worst r h pos m = elim (Bool-cases (j == i)) [
  | inl same ↦
      let e : j ≡ i = ground arith in
      Grown-le i _ 0 (hits_of (includes i is)) _ (omega arith) (
        hit_all-Grown is i now _ (record { started_at = now; count = 1 }) _
          (ground (arith, hit_absent i now r h)) (ground (arith, hit-SameLimits j now r)))
  | inr other ↦
      hit_all-opens is i now _ _ (hit_other i j now r other ∙ h)
        (ground (arith, hit-SameLimits j now r)) (ground arith)
]

hit_all-absent :
    (is : List Text) (i : Text) (now : ℕ) (worst : RateLimitDecision) (r : InMemoryRateLimiter)
    → get i r.windows ≡ none
    → includes i is ≡ false
    → get i (hit_all is now worst r).1.windows ≡ none
unfolding hit_all includes
hit_all-absent [] i now worst r h m = h
hit_all-absent (j ∷ is) i now worst r h m = elim (Bool-cases (j == i)) [
  | inl same ↦ ground arith
  | inr other ↦ hit_all-absent is i now _ _ (hit_other i j now r other ∙ h) (ground arith)
]

module _ (i : Text) (now : ℕ) (key : RateLimitKey) (r : InMemoryRateLimiter)
    (absent : get i r.windows ≡ none) where
  check-opens :
      0 < r.window_seconds
      → includes i (identifiers key) ≡ true
      → Grown i (record { started_at = now; count = 1 }) 0 (check key (at now r)).1
  unfolding check
  check-opens pos m =
      hit_all-opens (identifiers key) i now allow (prune now (at now r))
        (prune_absent i now (at now r) absent) (ground (arith, prune-SameLimits now (at now r))) m

  check-absent :
      includes i (identifiers key) ≡ false → get i (check key (at now r)).1.windows ≡ none
  unfolding check
  check-absent m =
      hit_all-absent (identifiers key) i now allow (prune now (at now r))
        (prune_absent i now (at now r) absent) m

-- However the requests of an identifier without a window are mixed with others, within the length
-- of one window at most `maxPerWindow` of them are allowed, or one where that is 0.
pub admitted-le :
    (i : Text) (start : ℕ) (calls : List (ℕ × RateLimitKey)) (r : InMemoryRateLimiter)
    → get i r.windows ≡ none
    → All (λ c. (start ≤ c.0) × (c.0 < start + r.window_seconds)) calls
    → admitted i calls r ≤ max 1 r.max_per_window
unfolding admitted
admitted-le i start [] r h l = omega arith
admitted-le i start ((now, key) ∷ calls) r h l = elim (Bool-cases (includes i (identifiers key))) [
  | inl m ↦
      let same = check-SameLimits i now key r in
      let opened = check-opens i now key r h (omega arith) m in
      let rest =
        admitted_in_window i (now + r.window_seconds) r.max_per_window calls
          (check key (at now r)).1 opened.window opened.found
          (omega (arith, same.window_seconds, opened.started_at)) same.max_per_window
          (All-mono _ _ (λ c p. omega arith) calls l.1) in
      ground (arith, rest, opened.count)
  | inr m ↦
      let same = check-SameLimits i now key r in
      let rest =
        admitted-le i start calls (check key (at now r)).1 (check-absent i now key r h m)
          (rw same.window_seconds l.1) in
      ground (arith, rest, same.max_per_window)
]

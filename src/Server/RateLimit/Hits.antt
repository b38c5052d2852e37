-- ===== src/Server/RateLimit/Hits.antt =====
-- What one request does to the window of an identifier, hit by hit.
use nap.Base.{
  ℕ, ◌+◌, ◌≤◌, ◌<◌, ◌≡◌, refl, ◌∙◌, Bool, true, false, none, some, List, [], ◌∷◌, arith,
  if◌then◌else◌, Bool-cases, inl, inr,
}
use nap.Text.{Text, ◌==◌, includes}
use nap.JsMap.{get, get-set}
use nap.Server.RateLimit.{RateLimitDecision, Window, InMemoryRateLimiter, hit_window, hit, hit_all}

pub refused_stays :
    (is : List Text) (now : ℕ) (worst : RateLimitDecision) (r : InMemoryRateLimiter)
    → worst.allowed ≡ false
    → (hit_all is now worst r).0.allowed ≡ false
unfolding hit_all
refused_stays [] now worst r h = h
refused_stays (i ∷ is) now worst r h = ground (
  arith,
  refused_stays is now (if (hit i now r).0.allowed then worst else (hit i now r).0) (hit i now r).1,
)

-- The limiter's options do not change.
pub record SameLimits (r r' : InMemoryRateLimiter) : Type 0 where
  pub window_seconds : r'.window_seconds ≡ r.window_seconds
  pub max_per_window : r'.max_per_window ≡ r.max_per_window

pub hit-SameLimits : (i : Text) (now : ℕ) (r : InMemoryRateLimiter) → SameLimits r (hit i now r).1
unfolding hit
hit-SameLimits i now r = record { window_seconds = refl; max_per_window = refl }

pub hit_all-SameLimits :
    (is : List Text) (now : ℕ) (worst : RateLimitDecision) (r : InMemoryRateLimiter)
    → SameLimits r (hit_all is now worst r).1
unfolding hit_all
hit_all-SameLimits [] now worst r = record { window_seconds = refl; max_per_window = refl }
hit_all-SameLimits (i ∷ is) now worst r = ground (
  arith,
  hit-SameLimits i now r,
  hit_all-SameLimits is now (if (hit i now r).0.allowed then worst else (hit i now r).0)
      (hit i now r).1,
)

-- The window of `i` after some hits within it, `hits` of them on `i` at least.
pub record Grown (i : Text) (w : Window) (hits : ℕ) (r : InMemoryRateLimiter) : Type 0 where
  pub window : Window
  pub found : get i r.windows ≡ some window
  pub started_at : window.started_at ≡ w.started_at
  pub count : w.count + hits ≤ window.count

hit_self :
    (i : Text) (now : ℕ) (w : Window) (r : InMemoryRateLimiter)
    → get i r.windows ≡ some w
    → now < w.started_at + r.window_seconds
    → get i (hit i now r).1.windows ≡ some (record w { count = w.count + 1 })
unfolding hit hit_window
hit_self i now w r h l = ground (arith, get-set i i (record w { count = w.count + 1 }) r.windows)

pub hit_other :
    (i j : Text) (now : ℕ) (r : InMemoryRateLimiter)
    → (j == i) ≡ false
    → get i (hit j now r).1.windows ≡ get i r.windows
unfolding hit
hit_other i j now r ne = ground (
  arith,
  get-set j i (hit_window r.window_seconds r.max_per_window now (get j r.windows)).1 r.windows,
)

hit_refused :
    (i : Text) (now : ℕ) (w : Window) (r : InMemoryRateLimiter)
    → get i r.windows ≡ some w
    → now < w.started_at + r.window_seconds
    → r.max_per_window ≤ w.count
    → (hit i now r).0.allowed ≡ false
unfolding hit hit_window
hit_refused i now w r h l full = ground arith

pub hit_absent :
    (i : Text) (now : ℕ) (r : InMemoryRateLimiter)
    → get i r.windows ≡ none
    → get i (hit i now r).1.windows ≡ some (record { started_at = now; count = 1 })
unfolding hit hit_window
hit_absent i now r h =
    ground (arith, get-set i i (record { started_at = now; count = 1 }) r.windows)

Grown-trans :
    (i : Text) (w v : Window) (m n : ℕ) (r : InMemoryRateLimiter)
    → v.started_at ≡ w.started_at
    → w.count + m ≤ v.count
    → Grown i v n r
    → Grown i w (m + n) r
Grown-trans i w v m n r s c g = record {
  window = g.window;
  found = g.found;
  started_at = ground arith;
  count = omega (arith, g.count);
}

pub Grown-le :
    (i : Text) (w : Window) (m n : ℕ) (r : InMemoryRateLimiter)
    → m ≤ n
    → Grown i w n r
    → Grown i w m r
Grown-le i w m n r h g = record {
  window = g.window;
  found = g.found;
  started_at = g.started_at;
  count = omega (arith, g.count);
}

abbrev pub hits_of : Bool → ℕ
hits_of b = if b then 1 else 0

-- Within the window of `i` its count grows by one hit at least if `i` is among the identifiers.
pub hit_all-Grown :
    (is : List Text) (i : Text) (now : ℕ) (worst : RateLimitDecision) (w : Window)
    (r : InMemoryRateLimiter)
    → get i r.windows ≡ some w
    → now < w.started_at + r.window_seconds
    → Grown i w (hits_of (includes i is)) (hit_all is now worst r).1
unfolding hit_all includes
hit_all-Grown [] i now worst w r h l = record {
  window = w;
  found = h;
  started_at = refl;
  count = omega arith;
}
hit_all-Grown (j ∷ is) i now worst w r h l = elim (Bool-cases (j == i)) [
  | inl same ↦
      let next = record w { count = w.count + 1 } in
      let e : j ≡ i = ground arith in
      rw same (
        Grown-le i w 1 (1 + hits_of (includes i is)) _ (omega arith) (
          Grown-trans i w next 1 (hits_of (includes i is)) _ refl (omega arith) (
            hit_all-Grown is i now _ next _ (ground (arith, hit_self i now w r h l))
              (ground (arith, hit-SameLimits j now r)))))
  | inr other ↦ rw other (
      hit_all-Grown is i now _ w _ (hit_other i j now r other ∙ h)
        (ground (arith, hit-SameLimits j now r)))
]

-- In a full window a request with the identifier is refused.
pub hit_all_refused :
    (is : List Text) (i : Text) (now : ℕ) (worst : RateLimitDecision) (w : Window)
    (r : InMemoryRateLimiter)
    → get i r.windows ≡ some w
    → now < w.started_at + r.window_seconds
    → r.max_per_window ≤ w.count
    → includes i is ≡ true
    → (hit_all is now worst r).0.allowed ≡ false
unfolding hit_all includes
hit_all_refused [] i now worst w r h l full m = cc
hit_all_refused (j ∷ is) i now worst w r h l full m = elim (Bool-cases (j == i)) [
  | inl same ↦ refused_stays is now _ _ (ground (arith, hit_refused i now w r h l full))
  | inr other ↦
      hit_all_refused is i now _ w _ (hit_other i j now r other ∙ h)
        (ground (arith, hit-SameLimits j now r)) (ground (arith, hit-SameLimits j now r))
        (ground arith)
]

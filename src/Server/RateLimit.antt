-- ===== src/Server/RateLimit.antt =====
-- packages/nap-server/src/rateLimit.ts, and the rate limiter's types of types.ts. The limiter's
-- clock is read once a call; its reading is the field `clock`.
pub mod Hits
pub mod Budget
pub mod Identifiers
use nap.Base.{
  ℕ, suc, ◌+◌, ◌-◌, max, Bool, true, false, Option, none, some, List, [], ◌∷◌, ◌++◌, leb, ltb,
  if◌then◌else◌,
}
use nap.Text.{Text, text, truthy}
use nap.JsMap.{JsMap, get, set, retain}
use nap.JsMap

pub data Scope : Type 0 where
  init complete refresh : Scope

pub record RateLimitKey : Type 0 where
  pub scope : Scope
  pub npub : Option Text
  pub pubkey : Option Text
  pub client_ip : Option Text

pub record RateLimitDecision : Type 0 where
  pub allowed : Bool
  pub retry_after_seconds : Option ℕ

pub record Window : Type 0 where
  pub started_at : ℕ
  pub count : ℕ

pub record InMemoryRateLimiter : Type 0 where
  pub window_seconds : ℕ
  pub max_per_window : ℕ
  pub clock : ℕ
  pub windows : JsMap Window
  pub last_pruned_at : Option ℕ

-- The defaults of the options; the clock is the caller's.
unfoldable pub create_in_memory_rate_limiter : Option ℕ → Option ℕ → ℕ → InMemoryRateLimiter
create_in_memory_rate_limiter window_seconds max_per_window clock = record {
  window_seconds = elim window_seconds [ none ↦ 60 | some n ↦ n ];
  max_per_window = elim max_per_window [ none ↦ 30 | some n ↦ n ];
  clock = clock;
  windows = [];
  last_pruned_at = none;
}

abbrev pub allow : RateLimitDecision
allow = record { allowed = true; retry_after_seconds = none }

abbrev pub refuse : ℕ → RateLimitDecision
refuse n = record { allowed = false; retry_after_seconds = some n }

-- `now - startedAt >= windowSeconds`, also where the window began after now.
abbrev pub is_over : ℕ → ℕ → Window → Bool
is_over window_seconds now w = leb (w.started_at + window_seconds) now

abbrev fresh_window : ℕ → Window
fresh_window now = record { started_at = now; count = 1 }

abbrev counted : Window → Window
counted w = record w { count = w.count + 1 }

-- What `hit` answers and stores, given the window that the map holds.
unfoldable pub hit_window : ℕ → ℕ → ℕ → Option Window → RateLimitDecision × Window
hit_window window_seconds max_per_window now none = (allow, fresh_window now)
hit_window window_seconds max_per_window now (some w) =
    if is_over window_seconds now w
    then (allow, fresh_window now)
    else (if ltb max_per_window (w.count + 1)
        then (refuse (max 1 (w.started_at + window_seconds - now)), counted w)
        else (allow, counted w))

unfoldable pub hit : Text → ℕ → InMemoryRateLimiter → RateLimitDecision × InMemoryRateLimiter
unfolding hit_window
hit identifier now r =
    let (decision, w) =
      hit_window r.window_seconds r.max_per_window now (get identifier r.windows) in
    (decision, record r { windows = set identifier w r.windows })

abbrev is_pruned : ℕ → Option ℕ → Bool
is_pruned now none = false
is_pruned now (some at) = leb now at

unfoldable pub prune : ℕ → InMemoryRateLimiter → InMemoryRateLimiter
prune now r = if is_pruned now r.last_pruned_at then r else record r {
  last_pruned_at = some now;
  windows = retain (λ w. if is_over r.window_seconds now w then false else true) r.windows;
}

abbrev pub scope_text : Scope → Text
scope_text init = text "init"
scope_text complete = text "complete"
scope_text refresh = text "refresh"

abbrev pub given : Option Text → Text
given none = []
given (some s) = s

unfoldable pub npub_identifier : RateLimitKey → Text
npub_identifier key =
    if truthy key.client_ip
    then scope_text key.scope
      ++ (text ":npub:" ++ (given key.npub ++ (text "@" ++ given key.client_ip)))
    else scope_text key.scope ++ (text ":npub:" ++ given key.npub)

unfoldable pub identifiers : RateLimitKey → List Text
identifiers key =
    (if truthy key.npub then npub_identifier key ∷ [] else [])
    ++ ((if truthy key.pubkey
          then (scope_text key.scope ++ (text ":pubkey:" ++ given key.pubkey)) ∷ []
          else [])
        ++ (if truthy key.client_ip
            then (scope_text key.scope ++ (text ":ip:" ++ given key.client_ip)) ∷ []
            else []))

-- The `map` over the identifiers, then the `reduce` from `worst` on.
unfoldable pub hit_all :
    List Text
    → ℕ
    → RateLimitDecision
    → InMemoryRateLimiter
    → RateLimitDecision × InMemoryRateLimiter
hit_all [] now worst r = (worst, r)
hit_all (i ∷ is) now worst r =
    let (decision, r') = hit i now r in
    hit_all is now (if decision.allowed then worst else decision) r'

unfoldable pub check : RateLimitKey → InMemoryRateLimiter → RateLimitDecision × InMemoryRateLimiter
check key r = hit_all (identifiers key) r.clock allow (prune r.clock r)

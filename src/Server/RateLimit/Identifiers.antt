-- ===== src/Server/RateLimit/Identifiers.antt =====
-- The keys under which rateLimit.ts counts: no two principals or addresses share a budget.
use nap.Base.{◌≡◌, refl, true, false, ◌++◌, arith}
use nap.Text.{Text, text, truthy}
use nap.Text.Split.{has, split_at_last}
use nap.Server.RateLimit.{
  Scope, init, complete, refresh, RateLimitKey, scope_text, given, npub_identifier,
}

-- The first letters of two scopes differ.
scope-injective :
    (s t : Scope) (x y : Text) → scope_text s ++ x ≡ scope_text t ++ y → (s ≡ t) × (x ≡ y)
scope-injective init init x y e = (refl, ground arith)
scope-injective complete complete x y e = (refl, ground arith)
scope-injective refresh refresh x y e = (refl, ground arith)
scope-injective init complete x y e = ground arith
scope-injective init refresh x y e = ground arith
scope-injective complete init x y e = ground arith
scope-injective complete refresh x y e = ground arith
scope-injective refresh init x y e = ground arith
scope-injective refresh complete x y e = ground arith

-- Two requests that name a principal and come from a known address count against one principal
-- budget only if the endpoint, the principal and the address are the same. (No address has an `@`.)
pub npub_identifier-injective :
    (k l : RateLimitKey)
    → truthy k.client_ip ≡ true
    → truthy l.client_ip ≡ true
    → has b'@' (given k.client_ip) ≡ false
    → has b'@' (given l.client_ip) ≡ false
    → npub_identifier k ≡ npub_identifier l
    → (k.scope ≡ l.scope) × (given k.npub ≡ given l.npub) × (given k.client_ip ≡ given l.client_ip)
unfolding npub_identifier
npub_identifier-injective k l tk tl ak al e =
    let e' : scope_text k.scope
          ++ (text ":npub:" ++ (given k.npub ++ (text "@" ++ given k.client_ip)))
        ≡ scope_text l.scope
          ++ (text ":npub:" ++ (given l.npub ++ (text "@" ++ given l.client_ip))) =
      ground arith in
    let (scope, rest) = scope-injective k.scope l.scope _ _ e' in
    let (npub, ip) =
      split_at_last b'@' (given k.npub) (given l.npub) (given k.client_ip) (given l.client_ip) ak al
        (ground arith) in
    (scope, npub, ip)

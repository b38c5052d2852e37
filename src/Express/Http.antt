-- ===== src/Express/Http.antt =====
-- The requests and responses of packages/nap-adapter-express/src/adapter.ts, and its cookies. Of a
-- request the model has what the adapter reads: Express finds the headers and parses the JSON body.
use nap.Base.{ℕ, zero, suc, Bool, ◌&&◌, Option, none, some, List, [], ◌∷◌, if◌then◌else◌, eqb}
use nap.Text.{Text, text, ◌==◌, is_empty, trim, strip_prefix, to_lower_case}
use nap.Core.Types.{AuthInitResponse}
use nap.Server.View.{AuthSuccessResponse, PublicSessionView}

pub record Request : Type 0 where
  pub authorization : Option Text
  pub cookie : Option Text
  pub step_up_token : Option Text
  pub method : Text
  -- `req.body.npub`, where it is a string.
  pub npub : Option Text
  pub raw_body : Option (List ℕ)
  pub ip : Option Text

pub data Body : Type 0 where
  challenge : AuthInitResponse → Body
  success : AuthSuccessResponse → Body
  session : PublicSessionView → Body
  -- `{ status: 'error', message }` and `{ status: 'ok' }`.
  error : Text → Body
  status_ok empty : Body

pub record CookieOptions : Type 0 where
  pub http_only : Option Bool
  pub secure : Option Bool
  pub same_site : Option Text
  pub path : Option Text
  pub domain : Option Text
  pub max_age : Option ℕ
  pub expires : Option ℕ

pub data CookieChange : Type 0 where
  unchanged : CookieChange
  sets : Text → Text → CookieOptions → CookieChange
  clears : Text → CookieOptions → CookieChange

pub record Response : Type 0 where
  pub status : ℕ
  pub body : Body
  pub retry_after : Option ℕ
  pub cookie : CookieChange

abbrev pub respond : ℕ → Body → Response
respond status body = record {
  status = status;
  body = body;
  retry_after = none;
  cookie = unchanged;
}

-- `toPublicAuthFailure`, as `unauthorized` and `defaultWriteFailure` send it.
abbrev pub unauthorized : Response
unauthorized = respond 401 (error (text "authentication failed"))

abbrev pub forbidden : Text → Response
forbidden reason = respond 403 (error reason)

unfoldable pub rate_limited : Option ℕ → Response
rate_limited retry_after_seconds = record (respond 429 (error (text "rate limited"))) {
  retry_after = retry_after_seconds;
}

-- `value.endsWith('/') ? value.slice(0, -1) : value`
unfoldable pub normalize_base_url : Text → Text
normalize_base_url [] = []
normalize_base_url (c ∷ cs) =
    let rest = normalize_base_url cs in if is_empty cs && eqb c b'/' then [] else c ∷ rest

-- `s.split(separator)`, by the first part and the others.
unfoldable pub split_at : ℕ → Text → Text × List Text
split_at separator [] = ([], [])
split_at separator (c ∷ cs) =
    let (part, others) = split_at separator cs in
    if eqb c separator then ([], part ∷ others) else (c ∷ part, others)

-- What stands before and after the first `=`; nothing stands after where there is none.
unfoldable pub split_pair : Text → Text × Text
split_pair [] = ([], [])
split_pair (c ∷ cs) =
    let (name, value) = split_pair cs in if eqb c b'=' then ([], cs) else (c ∷ name, value)

-- The loop of `parseCookieValue`.
unfoldable pub find_cookie : List Text → Text → Option Text
find_cookie [] wanted = none
find_cookie (candidate ∷ candidates) wanted =
    let (name, value) = split_pair (trim candidate) in
    let rest = find_cookie candidates wanted in if name == wanted then some value else rest

unfoldable pub parse_cookie_value : Option Text → Text → Option Text
parse_cookie_value none wanted = none
parse_cookie_value (some header) wanted =
    let (part, others) = split_at b';' header in
    if is_empty header then none else find_cookie (part ∷ others) wanted

abbrev drop : ℕ → Text → Text
drop zero s = s
drop (suc n) [] = []
drop (suc n) (c ∷ cs) = drop n cs

-- `bearerTokenOf`
unfoldable pub bearer_token_of : Request → Option Text
bearer_token_of req = elim (req.authorization) [
  | none ↦ none
  | some header ↦ elim (strip_prefix (text "bearer ") (to_lower_case header)) [
    | none ↦ none
    | some lower ↦ some (trim (drop 7 header))
  ]
]

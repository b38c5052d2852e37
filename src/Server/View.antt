-- ===== src/Server/View.antt =====
-- `toPublicAuthSuccess`, `toPublicSessionView` and `resolveEffectiveAcl` of
-- packages/nap-server/src/server.ts.
use nap.Base.{ℕ, Option, none, some, List, if◌then◌else◌}
use nap.Text.{Text}
use nap.Core.Types.{SessionRecord}
use nap.Server.Stores.{SessionStore, AclResolver, SessionView}
use nap.Server.Complete.{is_true}
use nap.Server.Refresh.{view_of}

pub record Principal : Type 0 where
  pub npub : Text
  pub pubkey : Text

-- The body of a login and of a refresh; `token_type` is always `Bearer`.
pub record AuthSuccessResponse : Type 0 where
  pub access_token : Text
  pub expires_at : ℕ
  pub step_up_token : Option Text
  pub step_up_expires_at : Option ℕ
  pub refresh_token : Option Text
  pub refresh_expires_at : Option ℕ
  pub principal : Principal
  pub roles : List Text
  pub permissions : List Text

abbrev principal_of : SessionRecord → Principal
principal_of r = record { npub = r.principal_npub; pubkey = r.principal_pubkey }

unfoldable pub to_public_auth_success : SessionRecord → AuthSuccessResponse
to_public_auth_success r = record {
  access_token = r.access_token;
  expires_at = r.expires_at;
  step_up_token = r.step_up_token;
  step_up_expires_at = r.step_up_expires_at;
  refresh_token = r.refresh_token;
  refresh_expires_at = r.refresh_expires_at;
  principal = principal_of r;
  roles = r.roles;
  permissions = r.permissions;
}

-- The body of `GET /auth/session`; its type could hold refresh fields, which are left out.
pub record PublicSessionView : Type 0 where
  pub expires_at : ℕ
  pub principal : Principal
  pub roles : List Text
  pub permissions : List Text

unfoldable pub to_public_session_view : SessionRecord → PublicSessionView
to_public_session_view r = record {
  expires_at = r.expires_at;
  principal = principal_of r;
  roles = r.roles;
  permissions = r.permissions;
}

-- `sessionStore?.revokeByPrincipal(pubkey, now)`
abbrev revoke : {S : Type 0} → Option (SessionStore S) → Text → ℕ → S → S
revoke none pubkey now s = s
revoke (some store) pubkey now s = (store.revoke_by_principal pubkey now s).1

-- `resolveEffectiveAcl` with the reading of its clock: `none` where the principal is not allowed.
-- The resolver and the store of sessions are optional.
unfoldable pub resolve_effective_acl :
    {A S : Type 0}
    → Option (AclResolver A)
    → Option (SessionStore S)
    → ℕ
    → SessionRecord
    → A
    → S
    → Option SessionView × (A × S)
resolve_effective_acl none store now r a s = (some (view_of r), (a, s))
resolve_effective_acl (some resolver) store now r a s =
    let (decision, a') =
      resolver.resolve r.principal_npub r.principal_pubkey
        (record { voucher = none; now = now; session = some (view_of r) }) a in
    if decision.allowed
    then (some (record { roles = decision.roles; permissions = decision.permissions }), (a', s))
    else (
      none,
      (a', if is_true decision.revoke_sessions then revoke store r.principal_pubkey now s else s),
    )

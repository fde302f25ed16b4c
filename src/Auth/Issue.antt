-- ===== src/Auth/Issue.antt =====
-- `issueAuthResponse` of src/auth/auth.service.ts: what it answers and which row it stores.
use nestjs_scaffold.Base.{
  ◌+◌, subst, String, Bool, none, ◌≡◌, refl, sym, ap, ◌∙◌, arith, if◌then◌else◌,
}
use nestjs_scaffold.Exec.{Returns, pure-eq-ok, Returns-bind, Returns-read}
use nestjs_scaffold.Schema.{User, RefreshToken, refresh_token}
use nestjs_scaffold.Prisma.Laws.{PrismaLaws, tally}
use nestjs_scaffold.Env.{Env, World}
use nestjs_scaffold.Env.Writes.{write-eq-ok, write_rest}
use nestjs_scaffold.RedisService.{get_json, set_json}
use nestjs_scaffold.Access.{load_access, get_user_access}
use nestjs_scaffold.Roles.Frame.{db-get_user_access}
use nestjs_scaffold.Auth.Tokens.{
  AuthRequestMeta, hash_refresh_token, new_token, create_refresh_token, create_access_token,
}
use nestjs_scaffold.Auth.Service.{my_tenants, issue_auth_response}
use nestjs_scaffold.Auth.Responses.{AuthResponseDto, from_entity}

module _ (env : Env) where
  -- The one row that is new in the table of the refresh tokens.
  pub record Added (user_id tenant_id plain_token : String) (before after : env.prisma.Db)
      : Type 0 where
    pub row : RefreshToken
    pub hashed : row.token_hash ≡ env.sha256 plain_token
    pub unrevoked : row.revoked_at ≡ none
    pub of_user : row.user_id ≡ user_id
    pub of_tenant : row.tenant_id ≡ tenant_id
    pub counted :
        (q : RefreshToken → Bool)
        → tally env.prisma refresh_token q after
          ≡ (if q row then 1 else 0) + tally env.prisma refresh_token q before

  pub record Issued (u : User) (tenant_id plain_token : String) (w : World env)
      (response : AuthResponseDto) (w' : World env) : Type 0 where
    pub plain : response.refresh_token ≡ plain_token
    pub user : response.user.id ≡ u.id
    pub current : response.current_tenant_id ≡ tenant_id
    pub added : Added u.id tenant_id plain_token w.db w'.db
    pub same_time : w'.now ≡ w.now

  now-get_user_access :
      (user_id tenant_id : String) (w : World env)
      → (get_user_access env user_id tenant_id w).1.now ≡ w.now
  unfolding get_user_access get_json load_access set_json
  now-get_user_access user_id tenant_id w = ground arith

  my_tenants_state : (user_id : String) (w : World env) → (my_tenants env user_id w).1 ≡ w
  unfolding my_tenants
  my_tenants_state user_id w = refl

  create_access_token_state :
      (u : User) (tenant_id : String) (w : World env)
      → (create_access_token env u tenant_id w).1 ≡ w
  unfolding create_access_token
  create_access_token_state u tenant_id w = refl

  module _ (prisma : PrismaLaws env.prisma) where
    create_refresh_token-Added :
        (user_id tenant_id plain_token : String) (meta : AuthRequestMeta) (w : World env)
        → Returns
            (λ r w'. Added user_id tenant_id plain_token w.db w'.db × (w'.now ≡ w.now))
            (create_refresh_token env user_id tenant_id meta plain_token w)
    unfolding create_refresh_token hash_refresh_token
    create_refresh_token-Added user_id tenant_id plain_token meta w =
        let created = λ (v : World env).
          env.prisma.create refresh_token
            (new_token env user_id tenant_id meta plain_token v.now) in
        record {
          holds = λ r w' e.
              let ((i, same), counted) =
                prisma.create-tally refresh_token
                  (new_token env user_id tenant_id meta plain_token w.now) w.db r w'.db
                  (write-eq-ok env (created w) w w' r e) in
              (
                record {
                  row = r;
                  hashed = ap (λ (x : RefreshToken). x.token_hash) same;
                  unrevoked = ap (λ (x : RefreshToken). x.revoked_at) same;
                  of_user = ap (λ (x : RefreshToken). x.user_id) same;
                  of_tenant = ap (λ (x : RefreshToken). x.tenant_id) same;
                  counted = counted;
                },
                ap (λ x. x.1.now) (sym e)
                    ∙ ap (λ (v : World env). v.now) (write_rest env (created w) w),
              );
        }

    pub issue_auth_response-Issued :
        (u : User) (tenant_id plain_token : String) (meta : AuthRequestMeta) (w : World env)
        → Returns
            (Issued u tenant_id plain_token w)
            (issue_auth_response env u tenant_id meta plain_token w)
    unfolding issue_auth_response from_entity
    issue_auth_response-Issued u tenant_id plain_token meta w =
        Returns-bind (get_user_access env u.id tenant_id) _ w λ access w₁ a.
          Returns-read (my_tenants env u.id) _ w₁ (my_tenants_state u.id w₁) λ tenants _.
            Returns-bind (create_refresh_token env u.id tenant_id meta plain_token) _ w₁ λ r w₂ c.
              Returns-read (create_access_token env u tenant_id) _ w₂
                (create_access_token_state u tenant_id w₂)
                λ token _. record {
                  holds = λ response w' e.
                      let (same, end) = pure-eq-ok _ _ _ _ e in
                      let (added, later) =
                        (create_refresh_token-Added u.id tenant_id plain_token meta w₁).holds r w₂
                          c in
                      let before : w₁.db ≡ w.db =
                        sym (ap (λ x. x.1.db) a) ∙ db-get_user_access env u.id tenant_id w in
                      record {
                        plain = sym (ap (λ (x : AuthResponseDto). x.refresh_token) same);
                        user = sym (ap (λ (x : AuthResponseDto). x.user.id) same);
                        current = sym (ap (λ (x : AuthResponseDto). x.current_tenant_id) same);
                        added =
                            subst (λ d. Added u.id tenant_id plain_token w.db d)
                              (ap (λ (v : World env). v.db) end)
                              (subst (λ d. Added u.id tenant_id plain_token d w₂.db) before added);
                        same_time =
                            sym (ap (λ (v : World env). v.now) end)
                            ∙ later
                            ∙ sym (ap (λ x. x.1.now) a)
                            ∙ now-get_user_access u.id tenant_id w;
                      };
                }

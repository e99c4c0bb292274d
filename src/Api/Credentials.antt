-- ===== src/Api/Credentials.antt =====
-- sbc/api.go: the credential cache.
use comcent_ce.Common.{
  ℕ, ◌+◌, ◌<◌, ◌≡◌, false, none, some, arith, Text, text_eq_iff, lookup, delete, lookup-store,
  Bool-cases, ltb, ltb_iff, sym, ap, ◌∙◌, inl, inr,
}
use comcent_ce.Api.{
  IpNet, Reply, unreachable, answer, found, CredEntry, cache_ttl, Api, cred_reply,
  get_user_password,
}

module _ (net : IpNet) where
  cred_reply-found :
      (api : Api net) (now : ℕ) (key : Text) (reply : Reply Text) (p : Text)
      → (cred_reply net api now key reply).1 ≡ found p
      → lookup key (cred_reply net api now key reply).0.cred_cache
        ≡ some (record { password = p; expires_at = now + cache_ttl })
  unfolding cred_reply
  cred_reply-found api now key unreachable p e = cc
  cred_reply-found api now key (answer status none) p e = ground arith
  cred_reply-found api now key (answer status (some q)) p e = ground (
    arith,
    lookup-store key key (record { password = q; expires_at = now + cache_ttl }) api.cred_cache,
    text_eq_iff key key,
  )

  from_cache :
      (api : Api net) (later : ℕ) (key : Text) (other : Reply Text) (e : CredEntry)
      → lookup key api.cred_cache ≡ some e
      → later < e.expires_at
      → get_user_password net api later key other ≡ (api, found e.password, false)
  unfolding get_user_password
  from_cache api later key other e h l = elim (Bool-cases (ltb later e.expires_at)) [
    | inl t ↦ rw (h, get_user_password, t)
    | inr t ↦ ground (arith, ltb_iff later e.expires_at)
  ]

  asked :
      (api : Api net) (now : ℕ) (key : Text) (reply : Reply Text)
      → lookup key api.cred_cache ≡ none
      → get_user_password net api now key reply
        ≡ cred_reply net (record api { cred_cache = delete key api.cred_cache }) now key reply
  unfolding get_user_password
  asked api now key reply h = rw (h, get_user_password)

  -- A password that the server gave is used for five minutes without asking again, whatever the server
  -- would say by then; where nothing was cached for the user before.
  get_user_password-cached :
      (api : Api net) (now later : ℕ) (key : Text) (reply other : Reply Text) (p : Text)
      → lookup key api.cred_cache ≡ none
      → (get_user_password net api now key reply).1 ≡ found p
      → later < now + cache_ttl
      → get_user_password net (get_user_password net api now key reply).0 later key other
        ≡ ((get_user_password net api now key reply).0, found p, false)
  get_user_password-cached api now later key reply other p e f h =
      let first = asked api now key reply e in
      from_cache (get_user_password net api now key reply).0 later key other
        (record { password = p; expires_at = now + cache_ttl })
        (ap (λ r. lookup key r.0.cred_cache) first
          ∙ cred_reply-found (record api { cred_cache = delete key api.cred_cache }) now key reply p
              (sym (ap (λ r. r.1) first) ∙ f))
        h

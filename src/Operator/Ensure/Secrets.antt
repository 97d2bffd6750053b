-- ===== src/Operator/Ensure/Secrets.antt =====
-- The TSIG secret that the two servers share.
use ksdns.Prelude.{
  String, ◌≡◌, refl, subst, true, false, Option, none, [], ◌∷◌, arith, is_some, Bool-cases, inl,
  inr,
}
use ksdns.Prelude.Go.{Error, is_not_found, err, Result-cases}
use ksdns.Operator.Objects.{Labels, Kind, secret, Ksdns}
use ksdns.Operator.Kubernetes.{Kubernetes}
use ksdns.Operator.Run.{done, failed}
use ksdns.Operator.Labels.{make_labels, coredns_name}
use ksdns.Operator.Corefile.{render_tsig_secret}
use ksdns.Operator.Resources.{plain_object}
use ksdns.Operator.Ensure.{
  field, stored_data, set_string_data, with_change, apply, check_secret, own_secret, given_secret,
  find_secret, ensure_coredns_secret,
}

module _ (k : Kubernetes) (generated : Option String) (owner : Ksdns) (c : k.Cluster) where
  -- Where the Ksdns object names no secret, a read of the operator's own secret that fails, but not
  -- for a missing object, does not stop the step: it writes a TSIG file with an empty key name and
  -- an empty secret.
  pub failed_read_empties_secret :
      (e : Error)
      → owner.secret ≡ none
      → k.get c Kind.secret_kind owner.namespace owner.name ≡ err e
      → is_not_found e ≡ false
      → ensure_coredns_secret k generated owner c
        ≡ apply k
            (plain_object (coredns_name owner) owner (make_labels "ksdns" owner) (secret [] []))
            (with_change k owner (set_string_data (("tsig.conf", render_tsig_secret "" "") ∷ [])))
            c
  unfolding ensure_coredns_secret find_secret own_secret
  failed_read_empties_secret e p q r =
      rw (p, find_secret) (rw (q, own_secret) (rw (r, own_secret) refl))

  check_secret-done :
      (s stored : Labels)
      → check_secret k s ≡ done stored
      → (s ≡ stored)
        × (is_some (field "tsigKey" s) ≡ true)
        × (is_some (field "tsigSecret" s) ≡ true)
  check_secret-done s stored h = elim (Bool-cases (is_some (field "tsigKey" s))) [
    | inl p ↦ elim (Bool-cases (is_some (field "tsigSecret" s))) [
      | inl q ↦ (ground arith, p, q)
      | inr q ↦ absurd (ground arith)
    ]
    | inr p ↦ absurd (ground arith)
  ]

  -- The step goes on with a secret that the user named only if the object was read and has both
  -- fields; the server is as before.
  given_secret_has_fields :
      (name : String) (stored : Labels)
      → (given_secret k name owner c).0 ≡ done stored
      → (is_some (field "tsigKey" stored) ≡ true)
        × (is_some (field "tsigSecret" stored) ≡ true)
        × ((given_secret k name owner c).1 ≡ c)
  unfolding given_secret
  given_secret_has_fields name stored h =
      elim (Result-cases (k.get c Kind.secret_kind owner.namespace name)) [
        | inl (e, p) ↦
            let refused : failed e ≡ done stored = rw (p, given_secret) at h in absurd (cc)
        | inr (found, p) ↦
            let checked : check_secret k (stored_data found.body) ≡ done stored =
              rw (p, given_secret) at h in
            let (same, key, secret_field) =
              check_secret-done (stored_data found.body) stored checked in
            (
              subst (λ s. is_some (field "tsigKey" s) ≡ true) same key,
              subst (λ s. is_some (field "tsigSecret" s) ≡ true) same secret_field,
              rw (p, given_secret) refl,
            )
      ]

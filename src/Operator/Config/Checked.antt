-- ===== src/Operator/Config/Checked.antt =====
-- What a configuration that Validate accepts (internal/cnpgi/operator/config/config.go) can be
-- relied on for.
use cnpg_i_chronicle.Common.{
  ◌≡◌, refl, Bool, true, false, not, ◌⊎◌, ◌↔◌, inl, inr, List, [], ◌∷◌, arith, if◌then◌else◌, Text,
  codes, text_eq, is_nil, ok, Bool-cases,
}
use cnpg_i_chronicle.Snapshot.Denylist.{plugin_name}
use cnpg_i_chronicle.Cluster.{Declaration}
use cnpg_i_chronicle.Operator.Config.{
  PluginConfiguration, parameter, new_from_parameters, new_from_plugins, validate,
  is_restore_requested,
}

-- A configuration that is in force and accepted names a store to restore from just where it names a
-- server, and a policy only where it requests a restore.
pub validate_iff :
    (c : PluginConfiguration)
    → c.present ≡ true
    → c.enabled ≡ true
    → (validate c ≡ ok tt)
      ↔ (is_restore_requested c ≡ not (is_nil c.restore_from_server))
        × ((is_nil c.restore_policy ≡ true) ⊎ (is_restore_requested c ≡ true))
unfolding validate is_restore_requested
validate_iff c p e =
    from (is_nil c.restore_from_store) (is_nil c.restore_from_server) (is_nil c.restore_policy) refl
      refl refl
  where
    from :
        (store server policy : Bool)
        → is_nil c.restore_from_store ≡ store
        → is_nil c.restore_from_server ≡ server
        → is_nil c.restore_policy ≡ policy
        → (validate c ≡ ok tt)
          ↔ (is_restore_requested c ≡ not (is_nil c.restore_from_server))
            × ((is_nil c.restore_policy ≡ true) ⊎ (is_restore_requested c ≡ true))
    from true true true a b d = rw (p, e, a, b, d) ((λ h. (refl, inl refl)), λ h. refl)
    from true true false a b d =
        rw (p, e, a, b, d) ((λ h. absurd (ground arith)), λ h. absurd (ground (arith, h.1)))
    from true false policy a b d =
        rw (p, e, a, b) ((λ h. absurd (ground arith)), λ h. absurd (ground (arith, h.0)))
    from false true policy a b d =
        rw (p, e, a, b) ((λ h. absurd (ground arith)), λ h. absurd (ground (arith, h.0)))
    from false false true a b d = rw (p, e, a, b, d) ((λ h. (refl, inr refl)), λ h. refl)
    from false false false a b d = rw (p, e, a, b, d) ((λ h. (refl, inr refl)), λ h. refl)

-- A cluster that saves has a server name to save under, its own name where the declaration gives
-- none: no declaration makes it empty.
new_from_plugins-save_to_server :
    (declarations : List Declaration) (cluster_name : Text)
    → is_nil cluster_name ≡ false
    → is_nil (new_from_plugins declarations cluster_name).save_to_server ≡ false
unfolding new_from_plugins
new_from_plugins-save_to_server [] cluster_name h = h
new_from_plugins-save_to_server (d ∷ rest) cluster_name h =
    elim (Bool-cases (text_eq d.name plugin_name)) [
      | inl e ↦ rw e (of_parameters d cluster_name h)
      | inr e ↦ rw e (new_from_plugins-save_to_server rest cluster_name h)
    ]
  where
    of_parameters :
        (d : Declaration) (cluster_name : Text)
        → is_nil cluster_name ≡ false
        → is_nil (new_from_parameters d.parameters cluster_name).save_to_server ≡ false
    of_parameters d cluster_name h =
        unfold new_from_parameters in from (parameter (codes "saveToServer") d.parameters)
      where
        from : (server : Text) → is_nil (if is_nil server then cluster_name else server) ≡ false
        from [] = h
        from (c ∷ server) = refl

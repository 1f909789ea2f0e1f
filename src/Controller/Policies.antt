-- ===== src/Controller/Policies.antt =====
-- Reconcile of internal/controller/restorepolicy_controller.go: the verdict on a policy's rules. The
-- read and the patch of the Kubernetes client, meta.SetStatusCondition and an error's wording are
-- arguments.
use cnpg_i_chronicle.Common.{Option, none, some, List, if◌then◌else◌, Text, codes, Result, ok, err}
use cnpg_i_chronicle.Api.{RestorePolicy}
use cnpg_i_chronicle.Snapshot.PathCheck.{GoType}
use cnpg_i_chronicle.Store.Resolver.{ReadError, missing, no_match, unreadable}
use cnpg_i_chronicle.Restore.Skip.{CompiledSkip}
use cnpg_i_chronicle.Restore.Transform.{Expressions, TransformSet}
use cnpg_i_chronicle.Restore.Plan.{RuleError, compile_rules}
use cnpg_i_chronicle.Controller.Status.{Condition, equal_conditions}
use cnpg_i_chronicle.Controller.Stores.{
  condition_ready, reason_resolved, reason_configuration_invalid,
}

pub data PolicyFailure : Type 0 where
  unread_policy : ReadError → PolicyFailure
  unpatched_policy : Text → PolicyFailure

-- What was written of the conditions, and the error that Reconcile returned.
pub record PolicyReconciled : Type 0 where
  pub written : Option (List Condition)
  pub failure : Option PolicyFailure

module _ {Program : Type 0} (expressions : Expressions Program) (cluster_spec : GoType)
    (message_of : RuleError → Text)
    (set_status_condition : List Condition → Condition → List Condition)
    (patch_conditions : List Condition → Result Text (Unit {0})) where
  abbrev pub verdict_of : Result RuleError (List CompiledSkip × TransformSet Program) → Condition
  verdict_of (ok _) = record {
    kind = condition_ready;
    status = codes "True";
    observed_generation = 0;
    last_transition_time = 0;
    reason = reason_resolved;
    message = codes "Rules are valid";
  }
  verdict_of (err e) = record {
    kind = condition_ready;
    status = codes "False";
    observed_generation = 0;
    last_transition_time = 0;
    reason = reason_configuration_invalid;
    message = message_of e;
  }

  -- The condition that Reconcile sets
  unfoldable pub verdict : RestorePolicy → Condition
  verdict policy = verdict_of (compile_rules expressions cluster_spec policy.skip policy.transform)

  -- The end of Reconcile: the patch, where a condition changed
  unfoldable pub patch_changed : List Condition → List Condition → PolicyReconciled
  patch_changed original updated =
      if equal_conditions original updated
      then record { written = none; failure = none }
      else elim (patch_conditions updated) [
        | err e ↦ record { written = none; failure = some (unpatched_policy e) }
        | ok _ ↦ record { written = some updated; failure = none }
      ]

  -- Reconcile, on the policy that was read, with its conditions
  unfoldable pub reconcile_policy :
      Result ReadError (RestorePolicy × List Condition) → PolicyReconciled
  reconcile_policy (err missing) = record { written = none; failure = none }
  reconcile_policy (err no_match) = record {
    written = none;
    failure = some (unread_policy no_match);
  }
  reconcile_policy (err (unreadable e)) = record {
    written = none;
    failure = some (unread_policy (unreadable e));
  }
  reconcile_policy (ok (policy, conditions)) =
      patch_changed conditions (set_status_condition conditions (verdict policy))

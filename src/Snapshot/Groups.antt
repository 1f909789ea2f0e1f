-- ===== src/Snapshot/Groups.antt =====
-- internal/snapshot/groups.go: the capture allowlist. A group's description is prose for the docs
-- and is left out.
use cnpg_i_chronicle.Common.{
  Bool, true, false, Option, none, some, List, [], ◌∷◌, if◌then◌else◌, Text, codes, text_eq,
  text_lt, map, keep,
}
use cnpg_i_chronicle.Common.Sort.{sort_by}

-- MetadataGroupName
abbrev pub metadata_group_name : Text
metadata_group_name = codes "Metadata"

pub record Group : Type 0 where
  pub name : Text
  pub paths : List Text
  pub default_enabled : Bool

-- Groups
unfoldable pub groups : List Group
groups =
    record {
      name = codes "Gucs";
      paths = codes "spec.postgresql" ∷ codes "spec.podSelectorRefs" ∷ [];
      default_enabled = true;
    }
    ∷ record {
      name = codes "Resources";
      paths = codes "spec.resources" ∷ [];
      default_enabled = true;
    }
    ∷ record {
      name = codes "Storage";
      paths = codes "spec.storage" ∷ codes "spec.walStorage" ∷ codes "spec.tablespaces" ∷ [];
      default_enabled = true;
    }
    ∷ record {
      name = codes "Scheduling";
      paths =
          codes "spec.affinity"
          ∷ codes "spec.topologySpreadConstraints"
          ∷ codes "spec.priorityClassName"
          ∷ codes "spec.schedulerName"
          ∷ codes "spec.nodeMaintenanceWindow"
          ∷ [];
      default_enabled = true;
    }
    ∷ record {
      name = codes "Instances";
      paths = codes "spec.instances" ∷ [];
      default_enabled = true;
    }
    ∷ record {
      name = metadata_group_name;
      paths = codes "spec.inheritedMetadata" ∷ [];
      default_enabled = true;
    }
    ∷ record {
      name = codes "Image";
      paths =
          codes "spec.imageName"
          ∷ codes "spec.imageCatalogRef"
          ∷ codes "spec.imagePullPolicy"
          ∷ codes "spec.imagePullSecrets"
          ∷ [];
      default_enabled = true;
    }
    ∷ record {
      name = codes "Monitoring";
      paths = codes "spec.monitoring" ∷ [];
      default_enabled = true;
    }
    ∷ record { name = codes "Managed"; paths = codes "spec.managed" ∷ []; default_enabled = true }
    ∷ record {
      name = codes "PodEnv";
      paths =
          codes "spec.env"
          ∷ codes "spec.envFrom"
          ∷ codes "spec.projectedVolumeTemplate"
          ∷ codes "spec.serviceAccountTemplate"
          ∷ codes "spec.ephemeralVolumeSource"
          ∷ codes "spec.ephemeralVolumesSizeLimit"
          ∷ [];
      default_enabled = true;
    }
    ∷ record {
      name = codes "Replication";
      paths =
          codes "spec.replicationSlots"
          ∷ codes "spec.minSyncReplicas"
          ∷ codes "spec.maxSyncReplicas"
          ∷ [];
      default_enabled = true;
    }
    ∷ record {
      name = codes "Timings";
      paths =
          codes "spec.startDelay"
          ∷ codes "spec.stopDelay"
          ∷ codes "spec.smartShutdownTimeout"
          ∷ codes "spec.switchoverDelay"
          ∷ codes "spec.failoverDelay"
          ∷ codes "spec.livenessProbeTimeout"
          ∷ codes "spec.probes"
          ∷ codes "spec.primaryUpdateStrategy"
          ∷ codes "spec.primaryUpdateMethod"
          ∷ codes "spec.primaryLease"
          ∷ [];
      default_enabled = true;
    }
    ∷ record {
      name = codes "Security";
      paths =
          codes "spec.podSecurityContext"
          ∷ codes "spec.securityContext"
          ∷ codes "spec.seccompProfile"
          ∷ [];
      default_enabled = true;
    }
    ∷ record {
      name = codes "Misc";
      paths = codes "spec.description" ∷ codes "spec.logLevel" ∷ codes "spec.enablePDB" ∷ [];
      default_enabled = true;
    }
    ∷ record {
      name = codes "Identity";
      paths =
          codes "spec.postgresUID"
          ∷ codes "spec.postgresGID"
          ∷ codes "spec.serviceAccountName"
          ∷ [];
      default_enabled = false;
    }
    ∷ record {
      name = codes "Secrets";
      paths =
          codes "spec.certificates"
          ∷ codes "spec.superuserSecret"
          ∷ codes "spec.enableSuperuserAccess"
          ∷ [];
      default_enabled = false;
    }
    ∷ []

-- LookupGroup, over the list that it walks.
unfoldable pub find_group : Text → List Group → Option Group
find_group name [] = none
find_group name (group ∷ rest) =
    if text_eq group.name name then some group else find_group name rest

unfoldable pub lookup_group : Text → Option Group
lookup_group name = find_group name groups

-- GroupNames
unfoldable pub group_names : List Text
group_names = sort_by text_lt (map (λ (g : Group). g.name) groups)

-- DefaultGroupNames
unfoldable pub default_group_names : List Text
default_group_names =
    sort_by text_lt (map (λ (g : Group). g.name) (keep (λ (g : Group). g.default_enabled) groups))

-- EffectiveGroupNames
unfoldable pub effective_group_names : List Text → List Text
effective_group_names [] = default_group_names
effective_group_names (name ∷ rest) = name ∷ rest

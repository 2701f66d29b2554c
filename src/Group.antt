-- ===== src/Group.antt =====
-- The registration of the resource types with a scheme (api/v1alpha1/groupversion_info.go, and the
-- init functions of api/v1alpha1/nodereadinessgaterule_types.go and cmd/main.go). A scheme is the
-- list of the types that it knows.
use node_readiness_gate_cont.Prelude.{String, List, [], ◌∷◌, ◌++◌, map}

pub record GroupVersion : Type 0 where
  pub group : String
  pub version : String

pub record GroupVersionKind : Type 0 where
  pub group_version : GroupVersion
  pub kind : String

-- The variable GroupVersion.
abbrev pub group_version : GroupVersion
group_version = record { group = "nodereadiness.io"; version = "v1alpha1" }

-- The types that `SchemeBuilder.Register` is given.
abbrev pub registered_kinds : List String
registered_kinds = "NodeReadinessGateRule" ∷ "NodeReadinessGateRuleList" ∷ []

-- `SchemeBuilder.AddToScheme`: each registered type is added under the group version.
unfoldable pub add_to_scheme : List GroupVersionKind → List GroupVersionKind
add_to_scheme scheme =
    scheme ++ map (λ kind. record { group_version = group_version; kind = kind }) registered_kinds

-- The scheme of the program, from that of client-go.
unfoldable pub program_scheme : List GroupVersionKind → List GroupVersionKind
unfolding add_to_scheme
program_scheme client_go = add_to_scheme client_go

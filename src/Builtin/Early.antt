-- ===== src/Builtin/Early.antt =====
-- builtin.go: the entries of BuiltInAPIs up to the webhook configurations.
use contrib_filteredapiexpor.Prelude.{true, false, List, [], ◌∷◌}
use contrib_filteredapiexpor.Builtin.{InternalApi, cluster_scoped, namespace_scoped}

abbrev pub early_apis : List InternalApi
early_apis =
    record {
      plural = "namespaces";
      singular = "namespace";
      kind = "Namespace";
      group = "";
      version = "v1";
      instance_type = "corev1.Namespace";
      scope = cluster_scoped;
      has_status = true;
    }
    ∷ record {
      plural = "configmaps";
      singular = "configmap";
      kind = "ConfigMap";
      group = "";
      version = "v1";
      instance_type = "corev1.ConfigMap";
      scope = namespace_scoped;
      has_status = false;
    }
    ∷ record {
      plural = "events";
      singular = "event";
      kind = "Event";
      group = "";
      version = "v1";
      instance_type = "corev1.Event";
      scope = namespace_scoped;
      has_status = false;
    }
    ∷ record {
      plural = "resourcequotas";
      singular = "resourcequota";
      kind = "ResourceQuota";
      group = "";
      version = "v1";
      instance_type = "corev1.ResourceQuota";
      scope = namespace_scoped;
      has_status = true;
    }
    ∷ record {
      plural = "secrets";
      singular = "secret";
      kind = "Secret";
      group = "";
      version = "v1";
      instance_type = "corev1.Secret";
      scope = namespace_scoped;
      has_status = false;
    }
    ∷ record {
      plural = "serviceaccounts";
      singular = "serviceaccount";
      kind = "ServiceAccount";
      group = "";
      version = "v1";
      instance_type = "corev1.ServiceAccount";
      scope = namespace_scoped;
      has_status = false;
    }
    ∷ record {
      plural = "clusterroles";
      singular = "clusterrole";
      kind = "ClusterRole";
      group = "rbac.authorization.k8s.io";
      version = "v1";
      instance_type = "rbacv1.ClusterRole";
      scope = cluster_scoped;
      has_status = false;
    }
    ∷ record {
      plural = "clusterrolebindings";
      singular = "clusterrolebinding";
      kind = "ClusterRoleBinding";
      group = "rbac.authorization.k8s.io";
      version = "v1";
      instance_type = "rbacv1.ClusterRoleBinding";
      scope = cluster_scoped;
      has_status = false;
    }
    ∷ record {
      plural = "roles";
      singular = "role";
      kind = "Role";
      group = "rbac.authorization.k8s.io";
      version = "v1";
      instance_type = "rbacv1.Role";
      scope = namespace_scoped;
      has_status = false;
    }
    ∷ record {
      plural = "rolebindings";
      singular = "rolebinding";
      kind = "RoleBinding";
      group = "rbac.authorization.k8s.io";
      version = "v1";
      instance_type = "rbacv1.RoleBinding";
      scope = namespace_scoped;
      has_status = false;
    }
    ∷ record {
      plural = "certificatesigningrequests";
      singular = "certificatesigningrequest";
      kind = "CertificateSigningRequest";
      group = "certificates.k8s.io";
      version = "v1";
      instance_type = "certificatesv1.CertificateSigningRequest";
      scope = cluster_scoped;
      has_status = true;
    }
    ∷ record {
      plural = "leases";
      singular = "lease";
      kind = "Lease";
      group = "coordination.k8s.io";
      version = "v1";
      instance_type = "coordinationv1.Lease";
      scope = namespace_scoped;
      has_status = false;
    }
    ∷ record {
      plural = "mutatingwebhookconfigurations";
      singular = "mutatingwebhookconfiguration";
      kind = "MutatingWebhookConfiguration";
      group = "admissionregistration.k8s.io";
      version = "v1";
      instance_type = "admissionregistrationv1.MutatingWebhookConfiguration";
      scope = cluster_scoped;
      has_status = false;
    }
    ∷ record {
      plural = "validatingwebhookconfigurations";
      singular = "validatingwebhookconfiguration";
      kind = "ValidatingWebhookConfiguration";
      group = "admissionregistration.k8s.io";
      version = "v1";
      instance_type = "admissionregistrationv1.ValidatingWebhookConfiguration";
      scope = cluster_scoped;
      has_status = false;
    }
    ∷ []

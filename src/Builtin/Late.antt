-- ===== src/Builtin/Late.antt =====
-- builtin.go: the entries of BuiltInAPIs from the events of events.k8s.io on.
use contrib_filteredapiexpor.Prelude.{true, false, List, [], ◌∷◌}
use contrib_filteredapiexpor.Builtin.{InternalApi, cluster_scoped, namespace_scoped}

abbrev pub late_apis : List InternalApi
late_apis =
    record {
      plural = "events";
      singular = "event";
      kind = "Event";
      group = "events.k8s.io";
      version = "v1";
      instance_type = "eventsv1.Event";
      scope = namespace_scoped;
      has_status = false;
    }
    ∷ record {
      plural = "validatingadmissionpolicies";
      singular = "validatingadmissionpolicy";
      kind = "ValidatingAdmissionPolicy";
      group = "admissionregistration.k8s.io";
      version = "v1";
      instance_type = "admissionregistrationv1.ValidatingAdmissionPolicy";
      scope = cluster_scoped;
      has_status = true;
    }
    ∷ record {
      plural = "validatingadmissionpolicybindings";
      singular = "validatingadmissionpolicybinding";
      kind = "ValidatingAdmissionPolicyBinding";
      group = "admissionregistration.k8s.io";
      version = "v1";
      instance_type = "admissionregistrationv1.ValidatingAdmissionPolicyBinding";
      scope = cluster_scoped;
      has_status = false;
    }
    ∷ record {
      plural = "customresourcedefinitions";
      singular = "customresourcedefinition";
      kind = "CustomResourceDefinition";
      group = "apiextensions.k8s.io";
      version = "v1";
      instance_type = "apiextensionsv1.CustomResourceDefinition";
      scope = cluster_scoped;
      has_status = true;
    }
    ∷ record {
      plural = "logicalclusters";
      singular = "logicalcluster";
      kind = "LogicalCluster";
      group = "core.kcp.io";
      version = "v1alpha1";
      instance_type = "corev1alpha1.LogicalCluster";
      scope = cluster_scoped;
      has_status = true;
    }
    ∷ record {
      plural = "subjectaccessreviews";
      singular = "subjectaccessreview";
      kind = "SubjectAccessReview";
      group = "authorization.k8s.io";
      version = "v1";
      instance_type = "authorizationv1.SubjectAccessReview";
      scope = cluster_scoped;
      has_status = false;
    }
    ∷ record {
      plural = "localsubjectaccessreviews";
      singular = "localsubjectaccessreview";
      kind = "LocalSubjectAccessReview";
      group = "authorization.k8s.io";
      version = "v1";
      instance_type = "authorizationv1.LocalSubjectAccessReview";
      scope = namespace_scoped;
      has_status = false;
    }
    ∷ []

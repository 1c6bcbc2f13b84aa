-- ===== src/Tests/Report.antt =====
-- internal/report/report.go on examples.
use trivy_epss_kev_exporter.Base.{true, [], ◌∷◌, none, some, ◌≡◌, refl, Text, codes}
use trivy_epss_kev_exporter.Report.{
  OwnerReference, Vulnerability, VulnerabilityReport, Workload, workload, controller_owner,
  first_non_empty, label_resource_name, label_container_name,
}
use trivy_epss_kev_exporter.Report.Described.{IsWorkload, workload-IsWorkload}
use trivy_epss_kev_exporter.Tests.Fixtures.{program}

abbrev job : OwnerReference
job = record { kind = codes "Job"; name = codes "backup"; controller = none }

abbrev pub replica_set : OwnerReference
replica_set = record { kind = codes "ReplicaSet"; name = codes "web-7d"; controller = some true }

abbrev vulnerability : Text → Text → Vulnerability
vulnerability id severity = record {
  vulnerability_id = id;
  resource = codes "openssl";
  severity = severity;
}

-- The report has a name label but no kind label, and a repeated and a blank vulnerability.
abbrev pub web_report : VulnerabilityReport
web_report = record {
  metadata = record {
    name = codes "r";
    namespace = codes "prod";
    uid = codes "u";
    labels = (label_resource_name, codes "web") ∷ (label_container_name, codes "app") ∷ [];
    owner_references = job ∷ replica_set ∷ [];
  };
  spec = record {
    vulnerabilities =
        vulnerability (codes "cve-1") (codes "high")
        ∷ vulnerability (codes " ") (codes "low")
        ∷ vulnerability (codes "CVE-1 ") (codes "HIGH")
        ∷ vulnerability (codes "CVE-3") []
        ∷ [];
  };
}

abbrev pub web : Workload
web = record {
  namespace = codes "prod";
  name = codes "web";
  kind = codes "ReplicaSet";
  container = codes "app";
}

web_workload : workload web_report ≡ web
unfolding program workload first_non_empty controller_owner
web_workload = refl

workload-IsWorkload_example : IsWorkload web_report (workload web_report)
workload-IsWorkload_example = workload-IsWorkload web_report

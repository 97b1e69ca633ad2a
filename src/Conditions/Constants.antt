-- ===== src/Conditions/Constants.antt =====
-- internal/controller/upgradeaccelerator_conditions.go: the types, reasons and messages of the
-- conditions. The `%s` that ends the message of a found infrastructure is left to its use.
use openshift_upgrade_accele.Prelude.{String}

abbrev pub condition_status_true : String
condition_status_true = "True"

abbrev pub condition_status_false : String
condition_status_false = "False"

abbrev pub condition_type_failure : String
condition_type_failure = "Failure"

abbrev pub condition_type_successful : String
condition_type_successful = "Successful"

abbrev pub condition_type_completed : String
condition_type_completed = "Completed"

abbrev pub condition_type_running : String
condition_type_running = "Running"

abbrev pub condition_type_primer : String
condition_type_primer = "Primer"

abbrev pub condition_type_priming_in_progress : String
condition_type_priming_in_progress = "PrimingInProgress"

abbrev pub condition_type_infrastructure_found : String
condition_type_infrastructure_found = "InfrastructureFound"

abbrev pub condition_type_setup_complete : String
condition_type_setup_complete = "SetupComplete"

abbrev pub condition_reason_failure_get_release_images : String
condition_reason_failure_get_release_images = "GetReleaseImagesFailed"

abbrev pub condition_reason_failure_get_cluster_version : String
condition_reason_failure_get_cluster_version = "GetClusterVersionFailed"

abbrev pub condition_reason_failure_get_machine_config_pools : String
condition_reason_failure_get_machine_config_pools = "GetMachineConfigPoolsFailed"

abbrev pub condition_reason_failure_get_nodes : String
condition_reason_failure_get_nodes = "GetNodesFailed"

abbrev pub condition_reason_failure_get_infrastructure : String
condition_reason_failure_get_infrastructure = "GetInfrastructureFailed"

abbrev pub condition_reason_failure_setup : String
condition_reason_failure_setup = "SetupFailed"

abbrev pub condition_reason_running_disabled : String
condition_reason_running_disabled = "UpdateAcceleratorDisabled"

abbrev pub condition_reason_running_no_nodes_selected : String
condition_reason_running_no_nodes_selected = "NoNodesSelected"

abbrev pub condition_reason_running_jobs_scheduled : String
condition_reason_running_jobs_scheduled = "JobsScheduled"

abbrev pub condition_reason_running_reconciliation_completed : String
condition_reason_running_reconciliation_completed = "ReconciliationCompleted"

abbrev pub condition_reason_primer_completed : String
condition_reason_primer_completed = "PrimingCompleted"

abbrev pub condition_reason_primer_skipped : String
condition_reason_primer_skipped = "PrimingSkipped"

abbrev pub condition_reason_primer_in_progress : String
condition_reason_primer_in_progress = "PrimingInProgress"

abbrev pub condition_reason_infrastructure_found : String
condition_reason_infrastructure_found = "InfrastructureFound"

abbrev pub condition_reason_infrastructure_not_found : String
condition_reason_infrastructure_not_found = "InfrastructureNotFound"

abbrev pub condition_reason_setup_completed : String
condition_reason_setup_completed = "AllSetupComplete"

abbrev pub condition_reason_setup_namespace_failure : String
condition_reason_setup_namespace_failure = "NamespaceFailure"

abbrev pub condition_reason_setup_config_map_failure : String
condition_reason_setup_config_map_failure = "ConfigMapFailure"

abbrev pub condition_message_infrastructure_found : String
condition_message_infrastructure_found = "Platform Type: "

abbrev pub condition_message_completed : String
condition_message_completed = "All targeted nodes have completed"

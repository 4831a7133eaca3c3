-- ===== src/Storage/Attach/Errors.antt =====
-- storage/adapter/attachment/error.py: what the domain calls the failure of each class of exception.
use ontobdc_core.Prelude.{Option, none, some}
use ontobdc_core.Outcome.{
  Exception, value_error, type_error, attribute_error, key_error, runtime_error, os_error,
  postcondition_error, non_determinism_error, container_attach_error, invalid_container_path_error,
  invalid_container_graph_error, identity_conflict_error, dataset_attach_error,
  storage_index_attach_error, attach_rollback_error, foreign, Result, ok, raise,
}
use ontobdc_core.Storage.Attach.{class_state, error_state_for_exception}
use ontobdc_core.Storage.Attach.State.{
  ContainerAttachProcessState, undefined, invalid_container_path, invalid_container_graph,
  identity_conflict, dataset_attach_failed, storage_index_attach_failed, attach_rollback_failed,
}

-- No class of the attach process.
pub data IsForeign : Exception → Type 0 where
  is_value : IsForeign value_error
  is_type : IsForeign type_error
  is_attribute : IsForeign attribute_error
  is_key : IsForeign key_error
  is_runtime : IsForeign runtime_error
  is_os : IsForeign os_error
  is_postcondition : IsForeign postcondition_error
  is_non_determinism : IsForeign non_determinism_error
  is_other : IsForeign foreign

-- What the domain calls the failure of each class of exception.
pub data FailsAs : Exception → ContainerAttachProcessState → Type 0 where
  has_no_cause : FailsAs container_attach_error undefined
  has_bad_path : FailsAs invalid_container_path_error invalid_container_path
  has_bad_graph : FailsAs invalid_container_graph_error invalid_container_graph
  has_conflict : FailsAs identity_conflict_error identity_conflict
  has_bad_dataset : FailsAs dataset_attach_error dataset_attach_failed
  has_bad_index : FailsAs storage_index_attach_error storage_index_attach_failed
  has_bad_rollback : FailsAs attach_rollback_error attach_rollback_failed
  is_foreign : (e : Exception) → IsForeign e → FailsAs e invalid_container_graph

-- The state and the error of the rollback that a failure is answered with: the failure is the
-- exception's if the rollback succeeds, and the rollback's otherwise.
pub data IsFailure
    : Exception → Result (Unit {0}) → ContainerAttachProcessState → Option Exception → Type 0 where
  rolled_back :
      {e : Exception} {s : ContainerAttachProcessState} → FailsAs e s → IsFailure e (ok tt) s none
  not_rolled_back : {e e' : Exception} → IsFailure e (raise e') attach_rollback_failed (some e')

pub error_state_for_exception-FailsAs : (e : Exception) → FailsAs e (error_state_for_exception e)
unfolding error_state_for_exception class_state
error_state_for_exception-FailsAs container_attach_error = has_no_cause
error_state_for_exception-FailsAs invalid_container_path_error = has_bad_path
error_state_for_exception-FailsAs invalid_container_graph_error = has_bad_graph
error_state_for_exception-FailsAs identity_conflict_error = has_conflict
error_state_for_exception-FailsAs dataset_attach_error = has_bad_dataset
error_state_for_exception-FailsAs storage_index_attach_error = has_bad_index
error_state_for_exception-FailsAs attach_rollback_error = has_bad_rollback
error_state_for_exception-FailsAs value_error = is_foreign _ is_value
error_state_for_exception-FailsAs type_error = is_foreign _ is_type
error_state_for_exception-FailsAs attribute_error = is_foreign _ is_attribute
error_state_for_exception-FailsAs key_error = is_foreign _ is_key
error_state_for_exception-FailsAs runtime_error = is_foreign _ is_runtime
error_state_for_exception-FailsAs os_error = is_foreign _ is_os
error_state_for_exception-FailsAs postcondition_error = is_foreign _ is_postcondition
error_state_for_exception-FailsAs non_determinism_error = is_foreign _ is_non_determinism
error_state_for_exception-FailsAs foreign = is_foreign _ is_other

-- ===== src/Operations/Storage.antt =====
-- `OperationStorage` of packages/torchat-runtime/src/storage_capabilities.rs: the trait, what an
-- adapter of it promises, and the helpers of features/operations/mod.rs that every command uses.
use t_orca.Base.{
  ◌≡◌, Bool, not, ◌&&◌, ◌||◌, Option, some, List, find, is_empty, if◌then◌else◌, Text, text_eq,
  trim, codes, RuntimeResult, ok, err, invalid_params, conflict,
}
use t_orca.Base.Method.{Method, return, ◌>>◌}
use t_orca.Changes.{Section, ChangeSet, FeatureResult, change_section, set_insert, changed}
use t_orca.Operations.{DurableOperation, OperationType, type_eq, is_terminal}

-- The trait, over the type of the store.
pub record OperationStorage (S : Type 0) : Type 0 where
  pub operation_by_id : S → Text → RuntimeResult (Option DurableOperation)
  pub put_operation : DurableOperation → Method S Unit
  pub pending_operations : S → RuntimeResult (List DurableOperation)

-- What is put is what a later lookup of its id finds, and what is found under an id has the id.
pub record KeepsOperations {S : Type 0} (storage : OperationStorage S) : Type 0 where
  pub put_hit :
      (o : DurableOperation) (s s' : S)
      → storage.put_operation o s ≡ (ok tt, s')
      → storage.operation_by_id s' o.operation_id ≡ ok (some o)
  pub found_id :
      (s : S) (id : Text) (o : DurableOperation)
      → storage.operation_by_id s id ≡ ok (some o)
      → o.operation_id ≡ id

-- `OperationId::parse` of ids.rs.
unfoldable pub parse_operation_id : Text → RuntimeResult Text
parse_operation_id value =
    if is_empty (trim value)
    then err (invalid_params (codes "OperationId must not be empty"))
    else ok value

unfoldable pub ensure_pairing_entity : DurableOperation → Text → RuntimeResult Unit
unfolding type_eq
ensure_pairing_entity o pairing_id =
    if (type_eq o.operation_type OperationType.pairing
        || type_eq o.operation_type OperationType.pairing_cancellation)
      && text_eq o.entity_id pairing_id
    then ok tt
    else err (conflict (codes "operation does not belong to the requested pairing"))

unfoldable pub ensure_message_entity : DurableOperation → Text → RuntimeResult Unit
unfolding type_eq
ensure_message_entity o message_id =
    if type_eq o.operation_type OperationType.message_delivery && text_eq o.entity_id message_id
    then ok tt
    else err (conflict (codes "operation does not belong to the requested message"))

unfoldable pub operation_changes : Text → ChangeSet
unfolding change_section set_insert
operation_changes operation_id =
    let c = change_section Section.operations in
    record c {
      entities = record c.entities {
        operation_ids = set_insert operation_id c.entities.operation_ids;
      };
    }

module _ {S : Type 0} (storage : OperationStorage S) where
  unfoldable pub persist_changed : DurableOperation → Method S (FeatureResult DurableOperation)
  unfolding operation_changes changed
  persist_changed o = do
    storage.put_operation o
    return (changed o (operation_changes o.operation_id))

  unfoldable pub is_active_delivery : Text → DurableOperation → Bool
  unfolding type_eq is_terminal
  is_active_delivery message_id o =
      type_eq o.operation_type OperationType.message_delivery
      && text_eq o.entity_id message_id
      && not (is_terminal o.state)

  unfoldable pub active_message_delivery : S → Text → RuntimeResult (Option DurableOperation)
  unfolding is_active_delivery
  active_message_delivery s message_id = elim (storage.pending_operations s) [
    | err e ↦ err e
    | ok os ↦ ok (find (is_active_delivery message_id) os)
  ]

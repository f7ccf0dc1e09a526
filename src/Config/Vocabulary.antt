-- ===== src/Config/Vocabulary.antt =====
-- The vocabulary of operations: the three lists make it up, and a deployment offers what its
-- features allow.
use devops_tools.Prelude.{Text, ◌≡◌, ◌&&◌, ◌||◌, contains, contains-dedup_three}
use devops_tools.Prelude.{contains-filter, Distinct, dedup-Distinct, []}
use devops_tools.Config.Operations.{Config, all_operations, operations, is_offered}
use devops_tools.Config.Operations.{namespace_operations, global_operations, config_operations}

-- An operation is in the vocabulary exactly when one of the three lists has it, and the
-- vocabulary names no operation twice.
pub all_operations_complete :
    ((op : Text)
      → contains all_operations op ≡ (
          contains namespace_operations op
          || contains global_operations op
          || contains config_operations op))
    × Distinct all_operations
unfolding all_operations
all_operations_complete = (λ op. contains-dedup_three op _ _ _, dedup-Distinct [] _)

-- A deployment offers an operation exactly when the vocabulary has it and its feature is on.
pub contains-operations :
    (c : Config) (op : Text)
    → contains (operations c) op ≡ (contains all_operations op && is_offered c op)
unfolding operations
contains-operations c op = contains-filter (is_offered c) op all_operations

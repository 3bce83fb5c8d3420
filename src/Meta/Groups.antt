-- ===== src/Meta/Groups.antt =====
-- meta/reconcile/replica_group_reconciler.cpp: the passes over the replica groups, one after another.
use adviskv.Base.{ℕ, String, Bool, if◌then◌else◌}
use adviskv.Model.{Status, ok, fail}
use adviskv.Meta.Store.{MetaStore, MetaPersistedRecord, write_with}
use adviskv.Meta.Plan.{run_plan}
use adviskv.Meta.Phases.{run_phases}
use adviskv.Meta.Members.Grow.{run_members}

module _ {D : Type 0} (save_meta : MetaPersistedRecord → D → Status × D)
    (less : String → String → Bool) (reason : Status → String) (now : ℕ) where
  -- The next pass runs only if this one has not failed.
  abbrev and_then :
      Status × MetaStore D → (MetaStore D → Status × MetaStore D) → Status × MetaStore D
  and_then (status, s) next = if fail status then (status, s) else next s

  unfoldable pub run_groups : MetaStore D → Status × MetaStore D
  unfolding run_plan run_members
  run_groups s = and_then (run_plan save_meta s) (λ s1.
      and_then (write_with save_meta (λ t. (ok, run_phases now t)) s1)
        (λ s2. and_then (run_members save_meta less reason now s2) (run_plan save_meta)))
